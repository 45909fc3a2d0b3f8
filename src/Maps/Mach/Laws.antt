-- ===== src/Maps/Mach/Laws.antt =====
-- src/sysinfo.cpp, the listing on Mach against the segments of all images.
use jointprof.Maps.Iterator.{Entry}
use jointprof.Maps.Mach.{
  LoadCommand, MachHeader, Dyld, mh_magic_64, lc_segment_64, mh_magic, lc_segment,
  mach_header_64_size, mach_header_size, walk_commands, MachIterator, init_mach, segment_entry,
  next_ext_mach_helper, try_load_command, scan_load_commands, top_load_command, scan_from,
  after_scan, MachOutcome, segment, no_segment, visit_image, visit_images, next_ext_mach, list_mach,
}
use jointprof.Common.{
  ℕ, zero, suc, ◌+◌, ◌<◌, ◌≡◌, refl, sym, ap, ◌∙◌, subst, Bool, true, false, not, ◌&&◌, ◌||◌,
  Bool-cases, inl, inr, Option, none, some, List, [], ◌∷◌, ◌++◌, length, ◌==◌, if◌then◌else◌, ℤ,
  pos, negsuc, to_int, arith,
}

-- A load command is a segment if its number is the one of the image's format.
unfoldable pub is_segment : MachHeader → LoadCommand → Bool
is_segment hdr lc =
    (hdr.magic == mh_magic_64 && lc.cmd == lc_segment_64)
    || (hdr.magic == mh_magic && lc.cmd == lc_segment)

-- The width of a segment command of that format.
abbrev pub segment_width : MachHeader → ℕ
segment_width hdr = if hdr.magic == mh_magic_64 then 64 else 32

-- The load command behind `n` others, by the format of the header.
unfoldable pub our_command : Dyld → MachHeader → ℕ → LoadCommand
our_command dyld hdr n =
    if hdr.magic == mh_magic_64
    then dyld.command_at (walk_commands dyld (hdr.address + mach_header_64_size) n)
    else dyld.command_at (walk_commands dyld (hdr.address + mach_header_size) n)

-- The segments of an image among its first `n` load commands, from the last to the first.
unfoldable pub segments : Dyld → MachHeader → ℕ → ℕ → List Entry
segments dyld hdr image zero = []
segments dyld hdr image (suc n) =
    let rest = segments dyld hdr image n in
    if is_segment hdr (our_command dyld hdr n)
    then segment_entry (segment_width hdr) dyld image (our_command dyld hdr n) ∷ rest
    else rest

unfoldable pub segments_from : Dyld → MachHeader → ℕ → ℤ → List Entry
segments_from dyld hdr image (pos n) = segments dyld hdr image n
segments_from dyld hdr image (negsuc n) = []

-- The segments of the first `n` images, from the last image to the first.
unfoldable pub segments_below : Dyld → ℕ → List Entry
unfolding segments_from
segments_below dyld zero = []
segments_below dyld (suc image) =
    let rest = segments_below dyld image in
    elim (dyld.image_header image) [
      | none ↦ rest
      | some hdr ↦ segments_from dyld hdr image (to_int (pos hdr.ncmds)) ++ rest
    ]

-- What is left of the first `n` images, when the last of them stands at `load_cmd`.
unfoldable left : Dyld → ℕ → ℤ → List Entry
left dyld zero load_cmd = []
left dyld (suc image) load_cmd =
    let rest = left dyld image load_cmd in
    elim (dyld.image_header image) [
      | none ↦ rest
      | some hdr ↦
          segments_from dyld hdr image (top_load_command hdr load_cmd) ++ segments_below dyld image
    ]

unfoldable remaining : Dyld → MachIterator → List Entry
remaining dyld it = elim it.current_image [
  | negsuc n ↦ []
  | pos image ↦ left dyld (suc image) it.current_load_cmd
]

-- One format, by the outcome of its two tests.
abbrev chosen : (ℕ → LoadCommand → Entry) → ℕ → Bool → LoadCommand → ℕ → Option Entry
chosen e width right lc number =
    if not right then none else if lc.cmd == number then some (e width lc) else none

single_lem :
    (b : Bool) (e : Entry)
    → elim (if b then some e else none) [ none ↦ none | some f ↦ some f ]
      ≡ (if b || false then some e else none)
single_lem true e = refl
single_lem false e = refl

-- The two formats.
chosen_lem :
    (e : ℕ → LoadCommand → Entry) (a c : Bool) (x y : LoadCommand)
    → (a && c) ≡ false
    → let ours = if a then x else y in
      elim (chosen e 64 a x lc_segment_64) [ none ↦ chosen e 32 c y lc_segment | some f ↦ some f ]
      ≡ (if (a && ours.cmd == lc_segment_64) || (c && ours.cmd == lc_segment)
          then some (e (if a then 64 else 32) ours)
          else none)
chosen_lem e true true x y h = cc
chosen_lem e true false x y h = single_lem (x.cmd == lc_segment_64) (e 64 x)
chosen_lem e false true x y h = refl
chosen_lem e false false x y h = refl

try_lem :
    (dyld : Dyld) (hdr : MachHeader) (image n : ℕ)
    → try_load_command dyld hdr image n ≡ (
        if is_segment hdr (our_command dyld hdr n)
        then some (segment_entry (segment_width hdr) dyld image (our_command dyld hdr n))
        else none)
unfolding try_load_command next_ext_mach_helper is_segment our_command
try_lem dyld hdr image n =
    let apart : (hdr.magic == mh_magic_64 && hdr.magic == mh_magic) ≡ false = ground arith in
    chosen_lem (λ width lc. segment_entry width dyld image lc) (hdr.magic == mh_magic_64)
      (hdr.magic == mh_magic)
      (dyld.command_at (walk_commands dyld (hdr.address + mach_header_64_size) n))
      (dyld.command_at (walk_commands dyld (hdr.address + mach_header_size) n)) apart

-- What the inner loop says of the segments.
after_first : Dyld → MachHeader → ℕ → Option (Entry × ℕ) → List Entry
after_first dyld hdr image none = []
after_first dyld hdr image (some (e, stopped)) = e ∷ segments dyld hdr image stopped

scan_step :
    (dyld : Dyld) (hdr : MachHeader) (image n : ℕ) (b : Bool)
    → is_segment hdr (our_command dyld hdr n) ≡ b
    → scan_load_commands dyld hdr image (suc n) ≡ (
        if b
        then some (segment_entry (segment_width hdr) dyld image (our_command dyld hdr n), n)
        else scan_load_commands dyld hdr image n)
unfolding scan_load_commands
scan_step dyld hdr image n b h =
    ap
      (λ (o : Option Entry). elim o [
        | none ↦ scan_load_commands dyld hdr image n
        | some e ↦ some (e, n)
      ])
      (try_lem dyld hdr image n
        ∙ ap
            (λ t.
              if t
              then some (segment_entry (segment_width hdr) dyld image (our_command dyld hdr n))
              else none)
            h)
    ∙ by_test b
  where
    by_test :
        (t : Bool)
        → elim (if t
            then some (segment_entry (segment_width hdr) dyld image (our_command dyld hdr n))
            else none) [ none ↦ scan_load_commands dyld hdr image n | some e ↦ some (e, n) ]
          ≡ (if t
              then some (segment_entry (segment_width hdr) dyld image (our_command dyld hdr n), n)
              else scan_load_commands dyld hdr image n)
    by_test true = refl
    by_test false = refl

scan_load_commands_lem :
    (dyld : Dyld) (hdr : MachHeader) (image n : ℕ)
    → segments dyld hdr image n ≡ after_first dyld hdr image (scan_load_commands dyld hdr image n)
unfolding after_first segments scan_load_commands
scan_load_commands_lem dyld hdr image zero = refl
scan_load_commands_lem dyld hdr image (suc n) =
    elim (Bool-cases (is_segment hdr (our_command dyld hdr n))) [
      | inl hit ↦
          rw hit (ap (after_first dyld hdr image) (sym (scan_step dyld hdr image n true hit)))
      | inr miss ↦ rw miss (
          scan_load_commands_lem dyld hdr image n
          ∙ ap (after_first dyld hdr image) (sym (scan_step dyld hdr image n false miss)))
    ]

scan_from_lem :
    (dyld : Dyld) (hdr : MachHeader) (image : ℕ) (top : ℤ)
    → segments_from dyld hdr image top ≡ after_first dyld hdr image (scan_from dyld hdr image top)
unfolding segments_from scan_from after_first
scan_from_lem dyld hdr image (pos n) = scan_load_commands_lem dyld hdr image n
scan_from_lem dyld hdr image (negsuc n) = refl

-- Below zero, the next image starts at its top.
left-negsuc : (dyld : Dyld) (image k : ℕ) → left dyld image (negsuc k) ≡ segments_below dyld image
unfolding left segments_below top_load_command
left-negsuc dyld zero k = refl
left-negsuc dyld (suc image) k = go (dyld.image_header image) (left-negsuc dyld image k)
  where
    go :
        (h : Option MachHeader)
        → left dyld image (negsuc k) ≡ segments_below dyld image
        → elim h [
          | none ↦ left dyld image (negsuc k)
          | some hdr ↦
              segments_from dyld hdr image (to_int (pos hdr.ncmds)) ++ segments_below dyld image
        ]
          ≡ elim h [
            | none ↦ segments_below dyld image
            | some hdr ↦
                segments_from dyld hdr image (to_int (pos hdr.ncmds)) ++ segments_below dyld image
          ]
    go none ih = ih
    go (some hdr) ih = refl

left-some :
    (dyld : Dyld) (hdr : MachHeader) (image stopped : ℕ)
    → dyld.image_header image ≡ some hdr
    → left dyld (suc image) (pos stopped)
      ≡ segments dyld hdr image stopped ++ segments_below dyld image
unfolding left top_load_command segments_from
left-some dyld hdr image stopped e = rw (e, left) refl

left-after_scan :
    (dyld : Dyld) (image : ℕ) (top : ℤ)
    → left dyld image (after_scan top) ≡ segments_below dyld image
unfolding after_scan
left-after_scan dyld image (pos n) = left-negsuc dyld image 0
left-after_scan dyld image (negsuc n) = left-negsuc dyld image (suc n)

-- An outcome takes the first of these entries, and leaves the others; or there is none.
Yields : Dyld → List Entry → MachOutcome → Type 0
Yields dyld es (segment e it) = es ≡ e ∷ remaining dyld it
Yields dyld es (no_segment it) = es ≡ []

-- The end of a round, by the outcome of the inner loop.
pick-Yields :
    (dyld : Dyld) (hdr : MachHeader) (image : ℕ) (top : ℤ) (go_on : ℤ → MachOutcome)
    → ((c : ℤ) → Yields dyld (left dyld image c) (go_on c))
    → dyld.image_header image ≡ some hdr
    → (result : Option (Entry × ℕ)) (here : List Entry) → here ≡ after_first dyld hdr image result
    → Yields dyld (here ++ segments_below dyld image) (elim result [
      | none ↦ go_on (after_scan top)
      | some (e, stopped) ↦
          segment e (record { current_image = pos image; current_load_cmd = pos stopped })
    ])
unfolding after_first Yields remaining
pick-Yields dyld hdr image top go_on ih at none here same =
    subst (λ es. Yields dyld es (go_on (after_scan top)))
      (left-after_scan dyld image top ∙ ap (λ s. s ++ segments_below dyld image) (sym same))
      (ih (after_scan top))
pick-Yields dyld hdr image top go_on ih at (some (e, stopped)) here same =
    ap (λ s. s ++ segments_below dyld image) same
    ∙ ap (λ es. e ∷ es) (sym (left-some dyld hdr image stopped at))

visit_image-Yields :
    (dyld : Dyld) (image : ℕ) (load_cmd : ℤ) (go_on : ℤ → MachOutcome)
    → ((c : ℤ) → Yields dyld (left dyld image c) (go_on c))
    → Yields dyld (left dyld (suc image) load_cmd) (visit_image dyld image load_cmd go_on)
unfolding visit_image left Yields remaining
visit_image-Yields dyld image load_cmd go_on ih = go (dyld.image_header image) refl
  where
    go :
        (h : Option MachHeader)
        → dyld.image_header image ≡ h
        → Yields dyld
            (elim h [
              | none ↦ left dyld image load_cmd
              | some hdr ↦
                  segments_from dyld hdr image (top_load_command hdr load_cmd)
                  ++ segments_below dyld image
            ])
            (elim h [
              | none ↦ go_on load_cmd
              | some hdr ↦
                  let top = top_load_command hdr load_cmd in
                  elim (scan_from dyld hdr image top) [
                    | none ↦ go_on (after_scan top)
                    | some (e, stopped) ↦
                        segment e
                          (record { current_image = pos image; current_load_cmd = pos stopped })
                  ]
            ])
    go none e = ih load_cmd
    go (some hdr) e =
        pick-Yields dyld hdr image (top_load_command hdr load_cmd) go_on ih e
          (scan_from dyld hdr image (top_load_command hdr load_cmd))
          (segments_from dyld hdr image (top_load_command hdr load_cmd))
          (scan_from_lem dyld hdr image (top_load_command hdr load_cmd))

visit_images-Yields :
    (dyld : Dyld) (image : ℕ) (load_cmd : ℤ)
    → Yields dyld (left dyld (suc image) load_cmd) (visit_images dyld image load_cmd)
unfolding visit_images
visit_images-Yields dyld zero load_cmd =
    visit_image-Yields dyld 0 load_cmd _ (λ c. unfold Yields left in refl)
visit_images-Yields dyld (suc image) load_cmd =
    visit_image-Yields dyld (suc image) load_cmd (visit_images dyld image)
      (visit_images-Yields dyld image)

next_ext_mach-Yields :
    (dyld : Dyld) (it : MachIterator) → Yields dyld (remaining dyld it) (next_ext_mach dyld it)
unfolding next_ext_mach remaining
next_ext_mach-Yields dyld it = go it.current_image
  where
    go :
        (c : ℤ)
        → Yields dyld
            (elim c [ negsuc n ↦ [] | pos image ↦ left dyld (suc image) it.current_load_cmd ])
            (elim c [
              | negsuc n ↦ no_segment it
              | pos image ↦ visit_images dyld image it.current_load_cmd
            ])
    go (pos image) = visit_images-Yields dyld image it.current_load_cmd
    go (negsuc n) = unfold Yields in refl

list_mach-remaining :
    (fuel : ℕ) (dyld : Dyld) (it : MachIterator)
    → length (remaining dyld it) < fuel
    → list_mach fuel dyld it ≡ some (remaining dyld it)
unfolding list_mach Yields
list_mach-remaining zero dyld it enough = absurd (omega arith)
list_mach-remaining (suc fuel) dyld it enough =
    go (next_ext_mach dyld it) (next_ext_mach-Yields dyld it) (list_mach-remaining fuel dyld)
  where
    go :
        (o : MachOutcome)
        → Yields dyld (remaining dyld it) o
        → ((it' : MachIterator)
            → length (remaining dyld it') < fuel
            → list_mach fuel dyld it' ≡ some (remaining dyld it'))
        → elim o [
          | no_segment it' ↦ some []
          | segment e it' ↦ elim (list_mach fuel dyld it') [ none ↦ none | some es ↦ some (e ∷ es) ]
        ]
          ≡ some (remaining dyld it)
    go (segment e it') y ih = rw (ih it' (omega (arith, ap length y))) (ap some (sym y))
    go (no_segment it') y ih = ap some (sym y)

-- The listing in terms of the walk over the load commands.
pub list_mach_below :
    (fuel : ℕ) (dyld : Dyld)
    → length (segments_below dyld (suc dyld.image_count)) < fuel
    → list_mach fuel dyld (init_mach dyld) ≡ some (segments_below dyld (suc dyld.image_count))
list_mach_below fuel dyld enough =
    let all : remaining dyld (init_mach dyld) ≡ segments_below dyld (suc dyld.image_count) =
      unfold remaining in left-negsuc dyld (suc dyld.image_count) 0 in
    list_mach-remaining fuel dyld (init_mach dyld) (omega (arith, ap length all)) ∙ ap some all
