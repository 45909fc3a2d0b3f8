-- ===== src/Maps/Backing/Taken.antt =====
-- src/sysinfo.cpp, the block of NextExt for maps_backing, on a line as the kernel writes it.
use jointprof.Clib.Chars.{digit_value, digit_of}
use jointprof.Clib.Numbers.{IsDigitOf, write_number-IsDigitOf}
use jointprof.Clib.Printf.{write_number}
use jointprof.Maps.Backing.{find_second_paren, scan_pages}
use jointprof.Maps.Backing.Laws.{pages_text, scan_pages-pages_text, find_second_paren-append}
use jointprof.Maps.Iterator.{Iterator, take_backing}
use jointprof.Maps.Memory.{c_string}
use jointprof.Maps.Memory.Laws.{c_string-append}
use mathlib.Core.Path.{ap₂}
use jointprof.Common.{
  ℕ, ◌+◌, ◌-◌, ◌^◌, ◌≤◌, ◌<◌, ◌≡◌, ◌≢◌, refl, sym, ap, ◌∙◌, true, some, [], ◌∷◌, ◌++◌, append_assoc,
  Bytes, length, length-append, set, Lacks, All, All-map, All-append, arith,
}

set-append :
    (front behind : Bytes) (x v : ℕ)
    → set (front ++ (x ∷ behind)) (length front) v ≡ front ++ (v ∷ behind)
set-append [] behind x v = refl
set-append (y ∷ front) behind x v = ap (λ t. y ∷ t) (set-append front behind x v)

abbrev IsInner : ℕ → Type 0
IsInner c = (c ≢ 0) × (c ≢ b'(')

digit-IsInner : (base c : ℕ) → IsDigitOf base c → IsInner c
unfolding digit_of digit_value
digit-IsInner base c (d, h) = ground arith

number-IsInner : (base n : ℕ) → 2 ≤ base → base ≤ 16 → All IsInner (write_number base n)
number-IsInner base n lo hi =
    All-map (digit-IsInner base) (write_number base n) (write_number-IsDigitOf base n lo hi)

-- The text up to the second '(', and the text behind it.
abbrev file_part : ℕ → ℕ → Bytes
file_part fm fp =
    b'F' ∷ b' ' ∷ (write_number 16 fm ++ (b' ' ∷ (write_number 10 fp ++ (b')' ∷ b' ' ∷ []))))

abbrev anon_part : ℕ → ℕ → Bytes
anon_part am an = b'A' ∷ b' ' ∷ (write_number 16 am ++ (b' ' ∷ (write_number 10 an ++ (b')' ∷ []))))

parts : (fm fp am an : ℕ) → pages_text fm fp am an ≡ file_part fm fp ++ (b'(' ∷ anon_part am an)
unfolding pages_text
parts fm fp am an = simp append_assoc

two_numbers-IsInner :
    (m n : ℕ) (rest : Bytes)
    → All IsInner rest
    → All IsInner (write_number 16 m ++ (b' ' ∷ (write_number 10 n ++ rest)))
two_numbers-IsInner m n rest h =
    All-append IsInner (write_number 16 m) _ (number-IsInner 16 m (omega arith) (omega arith)) (
      omega arith,
      All-append IsInner (write_number 10 n) rest (number-IsInner 10 n (omega arith) (omega arith))
          h,
    )

file_part-IsInner : (fm fp : ℕ) → All IsInner (file_part fm fp)
file_part-IsInner fm fp = (omega arith, (omega arith, two_numbers-IsInner fm fp _ (omega arith)))

anon_part-IsInner : (am an : ℕ) → All IsInner (anon_part am an)
anon_part-IsInner am an = (omega arith, (omega arith, two_numbers-IsInner am an _ (omega arith)))

pages_text-Lacks : (fm fp am an : ℕ) → Lacks 0 (pages_text fm fp am an)
pages_text-Lacks fm fp am an = rw (parts fm fp am an) (
    All-append (λ c. c ≢ 0) (file_part fm fp) (b'(' ∷ anon_part am an)
      (All-map (λ c h. h.0) (file_part fm fp) (file_part-IsInner fm fp))
      (omega arith, All-map (λ c h. h.0) (anon_part am an) (anon_part-IsInner am an)))

module _ (it : Iterator) (front name behind : Bytes) (fm fp am an : ℕ)
    (backed : it.using_maps_backing ≡ true)
    (text : it.ibuf ≡ front ++ (name ++ (b' ' ∷ b'(' ∷ (pages_text fm fp am an ++ (0 ∷ behind)))))
    (inside : it.stext ≤ length front) (plain : Lacks 0 name) (fm_fits : fm < 2 ^ 64)
    (fp_fits : fp < 2 ^ 63) (am_fits : am < 2 ^ 64) (an_fits : an < 2 ^ 63) where
  pages : Bytes
  pages = pages_text fm fp am an

  up_to : Bytes
  up_to = front ++ (name ++ (b' ' ∷ []))

  length-up_to : length up_to ≡ length front + (length name + 1)
  unfolding up_to
  length-up_to =
      length-append front (name ++ (b' ' ∷ []))
      ∙ ap (λ n. length front + n) (length-append name (b' ' ∷ []))

  whole_name : c_string it.ibuf (length front) ≡ name ++ (b' ' ∷ b'(' ∷ pages)
  unfolding pages
  whole_name =
      let line = name ++ (b' ' ∷ b'(' ∷ pages) in
      let cut : it.ibuf ≡ front ++ (line ++ (0 ∷ behind)) = text ∙ sym (simp append_assoc) in
      ap (λ t. c_string t (length front)) cut
      ∙ c_string-append front line behind (
          All-append (λ c. c ≢ 0) name _ plain
            (omega arith, (omega arith, pages_text-Lacks fm fp am an)))

  paren :
      find_second_paren it.ibuf it.stext (length front + length (name ++ (b' ' ∷ b'(' ∷ pages))) 0
      ≡ some (length up_to)
  unfolding up_to pages
  paren =
      let file = file_part fm fp in
      let anon = anon_part am an in
      let split = parts fm fp am an in
      let cut : it.ibuf ≡ up_to ++ (b'(' ∷ (file ++ (b'(' ∷ (anon ++ (0 ∷ behind))))) =
        text
        ∙ ap (λ t. front ++ (name ++ (b' ' ∷ b'(' ∷ (t ++ (0 ∷ behind))))) split
        ∙ simp append_assoc in
      let size : length pages ≡ length file + (1 + length anon) =
        ap length split ∙ length-append file (b'(' ∷ anon) ∙ omega arith in
      let place : length front + length (name ++ (b' ' ∷ b'(' ∷ pages))
          ≡ length up_to + (1 + (length file + (1 + length anon))) =
        omega (arith, length-up_to, size, length-append name (b' ' ∷ b'(' ∷ pages)) in
      ap₂ (λ b p. find_second_paren b it.stext p 0) cut place
      ∙ find_second_paren-append up_to file anon (0 ∷ behind) it.stext
          (omega (arith, length-up_to, inside))
          (All-map (λ c h. h.1) file (file_part-IsInner fm fp))
          (All-map (λ c h. h.1) anon (anon_part-IsInner am an))

  page_string : c_string it.ibuf (length up_to + 1) ≡ pages
  unfolding up_to pages
  page_string =
      let before = up_to ++ (b'(' ∷ []) in
      let cut : it.ibuf ≡ before ++ (pages ++ (0 ∷ behind)) = text ∙ simp append_assoc in
      ap₂ c_string cut (sym (length-append up_to (b'(' ∷ [])))
      ∙ c_string-append before pages behind (pages_text-Lacks fm fp am an)

  cut_name :
      set it.ibuf (length up_to - 1) 0 ≡ front ++ (name ++ (0 ∷ b'(' ∷ (pages ++ (0 ∷ behind))))
  unfolding pages
  cut_name =
      let rest = b'(' ∷ (pages ++ (0 ∷ behind)) in
      let cut : it.ibuf ≡ (front ++ name) ++ (b' ' ∷ rest) = text ∙ simp append_assoc in
      let place : length up_to - 1 ≡ length (front ++ name) =
        omega (arith, length-up_to, length-append front name) in
      ap₂ (λ b p. set b p 0) cut place
      ∙ set-append (front ++ name) rest b' ' 0
      ∙ append_assoc front name (0 ∷ rest)

  -- On a line of /proc/<pid>/maps_backing whose file name is followed by its page counts in the form of the
  -- kernel, the block of NextExt hands the four counts out and ends the name in front of the space, even if
  -- the name holds parentheses; the mappings are 64-bit numbers, the counts are below 2 ^ 63, and the
  -- iterator reads page backing.
  pub take_backing-pages_text : take_backing it (length front) ≡ (
    front ++ (name ++ (0 ∷ b'(' ∷ (pages_text fm fp am an ++ (0 ∷ behind)))),
    record {
      file_mapping = some fm;
      file_pages = some fp;
      anon_mapping = some am;
      anon_pages = some an;
    },
  )
  unfolding take_backing pages
  take_backing-pages_text =
      rw (backed, whole_name, paren, take_backing)
        (ap₂ (λ b p. (b, p)) cut_name
          (ap scan_pages page_string
            ∙ scan_pages-pages_text fm fp am an fm_fits fp_fits am_fits an_fits))
