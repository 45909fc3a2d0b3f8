-- ===== src/Maps/Backing/Laws.antt =====
-- src/sysinfo.cpp, the page counts behind a file name.
use jointprof.Clib.Chars.{digit_value, digit_of, is_space}
use jointprof.Clib.Numbers.{clamp_small}
use jointprof.Clib.Numbers.Front.{Stops, skip_space-write_number, scan-write_number}
use jointprof.Clib.Printf.{write_number}
use jointprof.Clib.Scanf.{
  decimal, hexadecimal, Directive, literal, space, store, number, convert, expect, scan_directives,
  sscanf,
}
use jointprof.Clib.Strto.{skip_space, clamp_signed}
use jointprof.Maps.Backing.{find_second_paren, pages_format, stored_pages, scan_pages}
use mathlib.Core.Path.{ap₂}
use jointprof.Common.{
  ℕ, zero, suc, ◌+◌, ◌^◌, ◌<◌, ◌≡◌, ◌≢◌, refl, sym, ap, ◌∙◌, true, false, some, List, [], ◌∷◌, ◌++◌,
  ==-ne, ltb, leb, if◌then◌else◌, Bytes, length, append_assoc, length-append, get_or, Lacks, pos,
  arith,
}

pub get_or-append : (a z : Bytes) (i : ℕ) → get_or (a ++ z) (length a + i) 0 ≡ get_or z i 0
get_or-append [] z i = ap (λ k. get_or z k 0) (omega arith)
get_or-append (x ∷ a) z i =
    let one : length (x ∷ a) + i ≡ suc (length a + i) = omega arith in
    ap (λ k. get_or (x ∷ (a ++ z)) k 0) one ∙ get_or-append a z i

get_or-Lacks : (c : ℕ) (w z : Bytes) (i : ℕ) → Lacks c w → i < length w → get_or (w ++ z) i 0 ≢ c
get_or-Lacks c [] z i h inside = absurd (omega arith)
get_or-Lacks c (x ∷ w) z zero (ne, h) inside = ne
get_or-Lacks c (x ∷ w) z (suc i) (ne, h) inside = get_or-Lacks c w z i h (omega arith)

-- The loop passes over bytes that are no '('.
find_step :
    (buf : Bytes) (stext ptr count : ℕ)
    → stext < ptr
    → get_or buf ptr 0 ≢ b'('
    → find_second_paren buf stext (suc ptr) count ≡ find_second_paren buf stext ptr count
unfolding find_second_paren
find_step buf stext ptr count ahead ne =
    let inside : ltb stext ptr ≡ true = ground arith in
    rw (==-ne (get_or buf ptr 0) b'(' ne, inside) refl

find_hit :
    (buf : Bytes) (stext ptr count : ℕ)
    → stext < ptr
    → get_or buf ptr 0 ≡ b'('
    → find_second_paren buf stext (suc ptr) count
      ≡ (if leb 2 (count + 1) then some ptr else find_second_paren buf stext ptr (count + 1))
unfolding find_second_paren
find_hit buf stext ptr count ahead e =
    let inside : ltb stext ptr ≡ true = ground arith in rw (e, inside) refl

find_skip :
    (buf : Bytes) (stext k n count : ℕ)
    → stext < k
    → ((i : ℕ) → i < n → get_or buf (k + i) 0 ≢ b'(')
    → find_second_paren buf stext (k + n) count ≡ find_second_paren buf stext k count
find_skip buf stext k zero count ahead h =
    ap (λ p. find_second_paren buf stext p count) (omega arith)
find_skip buf stext k (suc n) count ahead h =
    let one : k + suc n ≡ suc (k + n) = omega arith in
    ap (λ p. find_second_paren buf stext p count) one
    ∙ find_step buf stext (k + n) count (omega arith) (h n (omega arith))
    ∙ find_skip buf stext k n count ahead (λ i less. h i (omega arith))

-- Over a text without '(' that stands in the buffer.
find_over :
    (buf front w behind : Bytes) (stext ptr count : ℕ)
    → buf ≡ front ++ (w ++ behind)
    → ptr ≡ length front + length w
    → stext < length front
    → Lacks b'(' w
    → find_second_paren buf stext ptr count ≡ find_second_paren buf stext (length front) count
find_over buf front w behind stext ptr count e at ahead h =
    ap (λ p. find_second_paren buf stext p count) at
    ∙ find_skip buf stext (length front) (length w) count ahead (λ i less e'.
      get_or-Lacks b'(' w behind i h less (
        sym (get_or-append front (w ++ behind) i)
        ∙ ap (λ t. get_or t (length front + i) 0) (sym e)
        ∙ e'))

-- At a '(' that stands in the buffer.
find_at :
    (buf front behind : Bytes) (stext ptr count : ℕ)
    → buf ≡ front ++ (b'(' ∷ behind)
    → ptr ≡ suc (length front)
    → stext < length front
    → find_second_paren buf stext ptr count ≡ (
        if leb 2 (count + 1)
        then some (length front)
        else find_second_paren buf stext (length front) (count + 1))
find_at buf front behind stext ptr count e at ahead =
    let here : length front ≡ length front + 0 = omega arith in
    ap (λ p. find_second_paren buf stext p count) at
    ∙ find_hit buf stext (length front) count ahead (
        ap (λ t. get_or t (length front) 0) e
        ∙ ap (λ p. get_or (front ++ (b'(' ∷ behind)) p 0) here
        ∙ get_or-append front (b'(' ∷ behind) 0)

-- Of the text behind stext_, the second '(' from the end is found, whatever stands in front of it.
pub find_second_paren-append :
    (front between last behind : Bytes) (stext : ℕ)
    → stext < length front
    → Lacks b'(' between
    → Lacks b'(' last
    → let text = front ++ (b'(' ∷ (between ++ (b'(' ∷ (last ++ behind)))) in
      find_second_paren text stext (length front + (1 + (length between + (1 + length last)))) 0
      ≡ some (length front)
find_second_paren-append front between last behind stext ahead hb hl =
    let text = front ++ (b'(' ∷ (between ++ (b'(' ∷ (last ++ behind)))) in
    let one = front ++ (b'(' ∷ []) in
    let two = one ++ between in
    let three = two ++ (b'(' ∷ []) in
    let in_one : text ≡ one ++ (between ++ (b'(' ∷ (last ++ behind))) = simp append_assoc in
    let in_two : text ≡ two ++ (b'(' ∷ (last ++ behind)) = simp append_assoc in
    let in_three : text ≡ three ++ (last ++ behind) = simp append_assoc in
    let l1 = length-append front (b'(' ∷ []) in
    let l2 = length-append one between in
    let l3 = length-append two (b'(' ∷ []) in
    find_over text three last behind stext
      (length front + (1 + (length between + (1 + length last)))) 0 in_three
      (omega (arith, l1, l2, l3)) (omega (arith, l1, l2, l3)) hl
    ∙ find_at text two (last ++ behind) stext (length three) 0 in_two (omega (arith, l3))
        (omega (arith, l1, l2))
    ∙ find_over text one between (b'(' ∷ (last ++ behind)) stext (length two) 1 in_one l2
        (omega (arith, l1)) hb
    ∙ find_at text front (between ++ (b'(' ∷ (last ++ behind))) stext (length one) 1 refl
        (omega (arith, l1)) ahead

-- The page counts as the kernel writes them behind the first of the two '('.
unfoldable pub pages_text : ℕ → ℕ → ℕ → ℕ → Bytes
pages_text fm fp am an =
    b'F'
    ∷ b' '
    ∷ (write_number 16 fm
        ++ (b' '
            ∷ (write_number 10 fp
                ++ (b')'
                    ∷ b' '
                    ∷ b'('
                    ∷ b'A'
                    ∷ b' '
                    ∷ (write_number 16 am ++ (b' ' ∷ (write_number 10 an ++ (b')' ∷ []))))))))

signed_small : (n : ℕ) → n < 2 ^ 63 → clamp_signed false n ≡ pos n
unfolding clamp_signed
signed_small n h = ground arith

-- A number behind a space, as the format reads it: the white space, then the conversion.
hexadecimal_step :
    (total n : ℕ) (format : List Directive) (tail : Bytes)
    → n < 2 ^ 64
    → Stops 16 tail
    → scan_directives total
        (space ∷ store hexadecimal ∷ format)
        (b' ' ∷ (write_number 16 n ++ tail))
      ≡ (let (values, m) = scan_directives total format tail in (number false n ∷ values, m))
unfolding scan_directives convert
hexadecimal_step total n format tail h stop =
    rw (skip_space-write_number 16 n tail (omega arith) (omega arith), scan_directives)
      (rw (scan-write_number 16 n tail (omega arith) (omega arith) h stop, convert) refl)

decimal_step :
    (total n : ℕ) (format : List Directive) (tail : Bytes)
    → n < 2 ^ 64
    → Stops 10 tail
    → scan_directives total (space ∷ store decimal ∷ format) (b' ' ∷ (write_number 10 n ++ tail))
      ≡ (let (values, m) = scan_directives total format tail in (number false n ∷ values, m))
unfolding scan_directives convert
decimal_step total n format tail h stop =
    rw (skip_space-write_number 10 n tail (omega arith) (omega arith), scan_directives)
      (rw (scan-write_number 10 n tail (omega arith) (omega arith) h stop, convert) refl)

sscanf-pages_text :
    (fm fp am an : ℕ)
    → fm < 2 ^ 64
    → fp < 2 ^ 63
    → am < 2 ^ 64
    → an < 2 ^ 63
    → (sscanf (pages_text fm fp am an) pages_format).0
      ≡ number false fm ∷ number false fp ∷ number false am ∷ number false an ∷ []
unfolding sscanf scan_directives expect pages_text skip_space is_space digit_of digit_value
sscanf-pages_text fm fp am an hfm hfp ham han =
    let total = length (pages_text fm fp am an) in
    let tail3 : Bytes = b' ' ∷ (write_number 10 an ++ (b')' ∷ [])) in
    let tail2 : Bytes = b')' ∷ b' ' ∷ b'(' ∷ b'A' ∷ b' ' ∷ (write_number 16 am ++ tail3) in
    let tail1 : Bytes = b' ' ∷ (write_number 10 fp ++ tail2) in
    let last : List Directive = literal b')' ∷ [] in
    let second : List Directive = space ∷ store decimal ∷ last in
    let middle : List Directive =
      literal b')' ∷ space ∷ literal b'(' ∷ literal b'A' ∷ space ∷ store hexadecimal ∷ second in
    let first : List Directive = space ∷ store decimal ∷ middle in
    ap (λ r. r.0) (hexadecimal_step total fm first tail1 hfm (refl, refl, refl))
    ∙ ap (λ r. number false fm ∷ r.0)
        (decimal_step total fp middle tail2 (omega arith) (refl, refl, refl))
    ∙ ap (λ r. number false fm ∷ number false fp ∷ r.0)
        (hexadecimal_step total am second tail3 ham (refl, refl, refl))
    ∙ ap (λ r. number false fm ∷ number false fp ∷ number false am ∷ r.0)
        (decimal_step total an last (b')' ∷ []) (omega arith) (refl, refl, refl))

-- sscanf reads back the four values of the text that pages_text describes.
pub scan_pages-pages_text :
    (fm fp am an : ℕ)
    → fm < 2 ^ 64
    → fp < 2 ^ 63
    → am < 2 ^ 64
    → an < 2 ^ 63
    → scan_pages (pages_text fm fp am an) ≡ record {
      file_mapping = some fm;
      file_pages = some fp;
      anon_mapping = some am;
      anon_pages = some an;
    }
unfolding scan_pages pages_text
scan_pages-pages_text fm fp am an hfm hfp ham han =
    ap stored_pages (sscanf-pages_text fm fp am an hfm hfp ham han)
    ∙ unfold stored_pages in
      rw (clamp_small fm hfm, clamp_small am ham, signed_small fp hfp, signed_small an han)
        (ap₂
          (λ x y. record {
            file_mapping = some fm;
            file_pages = some x;
            anon_mapping = some am;
            anon_pages = some y;
          })
          (omega arith) (omega arith))
