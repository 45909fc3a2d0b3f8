-- ===== src/Maps/Lifetime/Laws.antt =====
-- src/sysinfo.cpp, an iterator from its construction to its destruction.
use jointprof.Maps.File.{File, read_no_intr}
use jointprof.Maps.Init.{init}
use jointprof.Maps.Iterator.{
  Iterator, Fill, after_read, fill, shift_and_fill, end_line, advance, found, entry, finished,
  fault, next_ext,
}
use jointprof.Maps.Lifetime.{
  Resources, Owner, count_if, destroy, construct_backed, after_next, calls,
}
use jointprof.Maps.Line.{Fields}
use jointprof.Maps.Memory.{memchr, c_string}
use jointprof.Maps.Platform.{Platform, parse_line}
use jointprof.Common.{
  ℕ, zero, suc, ◌+◌, ◌-◌, ◌≡◌, refl, ap, subst, ◌∙◌, Bool, true, false, Option, none, some, List,
  [], ◌∷◌, ltb, if◌then◌else◌, Bool-cases, inl, inr, Bytes, ℤ, arith,
}
use mathlib.Core.Path.{ap₂}

read_no_intr-is_open : (fd : File) (n : ℕ) → (read_no_intr fd n).1.is_open ≡ fd.is_open
unfolding read_no_intr
read_no_intr-is_open fd n = elim (Bool-cases fd.is_open) [ inl e ↦ rw e refl | inr e ↦ rw e refl ]

after_read-is_open :
    (again : Bytes → ℕ → Option ℕ → File → Fill) (buf : Bytes) (etext : ℕ) (b : Option Bytes)
    (fd : File)
    → ((buf' : Bytes) (etext' : ℕ) (nread : Option ℕ)
        → (again buf' etext' nread fd).3.is_open ≡ fd.is_open)
    → (after_read again buf etext b fd).3.is_open ≡ fd.is_open
unfolding after_read
after_read-is_open again buf etext none fd ih = refl
after_read-is_open again buf etext (some []) fd ih = refl
after_read-is_open again buf etext (some (c ∷ more)) fd ih = ih _ _ _

fill-is_open :
    (rounds ebuf : ℕ) (buf : Bytes) (etext : ℕ) (nread : Option ℕ) (fd : File)
    → (fill rounds ebuf buf etext nread fd).3.is_open ≡ fd.is_open
unfolding fill
fill-is_open zero ebuf buf etext nread fd = refl
fill-is_open (suc rounds) ebuf buf etext nread fd =
    let fd' = (read_no_intr fd (ebuf - etext)).1 in
    let read =
      after_read-is_open (fill rounds ebuf) buf etext (read_no_intr fd (ebuf - etext)).0 fd'
        (λ b e n. fill-is_open rounds ebuf b e n fd')
      ∙ read_no_intr-is_open fd (ebuf - etext) in
    elim (Bool-cases (ltb etext ebuf)) [ inl e ↦ rw e read | inr e ↦ rw e refl ]

shift_and_fill-is_open : (it : Iterator) → (shift_and_fill it).fd.is_open ≡ it.fd.is_open
unfolding shift_and_fill
shift_and_fill-is_open it = fill-is_open _ _ _ _ _ it.fd

-- The iterator at a line has the file of the one before.
abbrev Keeps : Iterator → Option Iterator → Type 0
Keeps it none = Unit
Keeps it (some it') = it'.fd.is_open ≡ it.fd.is_open

advance-Keeps : (it : Iterator) → Keeps it (advance it)
unfolding advance end_line
advance-Keeps it =
    go (memchr it.ibuf it.nextline b'\n' (it.etext - it.nextline))
      (shift_and_fill-is_open (record it { stext = it.nextline }))
  where
    full : Iterator
    full = shift_and_fill (record it { stext = it.nextline })

    second :
        (place : Option ℕ)
        → full.fd.is_open ≡ it.fd.is_open
        → Keeps it (elim place [ none ↦ none | some nextline ↦ some (end_line full nextline) ])
    second none same = tt
    second (some nextline) same = same

    go :
        (place : Option ℕ)
        → full.fd.is_open ≡ it.fd.is_open
        → Keeps it (elim place [
          | some nextline ↦ some (end_line (record it { stext = it.nextline }) nextline)
          | none ↦ elim (memchr full.ibuf full.stext b'\n' (full.etext + 1 - full.stext)) [
            | some nextline ↦ some (end_line full nextline)
            | none ↦ none
          ]
        ])
    go (some nextline) same = refl
    go none same = second (memchr full.ibuf full.stext b'\n' (full.etext + 1 - full.stext)) same

found-is_open : (it : Iterator) (fields : Fields) → (found it fields).1.fd.is_open ≡ it.fd.is_open
unfolding found
found-is_open it fields = refl

Keeps-trans :
    (it it' : Iterator) (o : Option Iterator)
    → it'.fd.is_open ≡ it.fd.is_open
    → Keeps it' o
    → Keeps it o
Keeps-trans it it' none e k = tt
Keeps-trans it it' (some it'') e k = k ∙ e

next_ext-Keeps :
    (os : Platform) (fuel : ℕ) (it : Iterator) → Keeps it (after_next (next_ext os fuel it))
unfolding next_ext after_next
next_ext-Keeps os zero it = tt
next_ext-Keeps os (suc fuel) it = go (advance it) (advance-Keeps it) (next_ext-Keeps os fuel)
  where
    at :
        (it' : Iterator)
        → (it'.fd.is_open ≡ it.fd.is_open)
        → ((it' : Iterator) → Keeps it' (after_next (next_ext os fuel it')))
        → (more : Bool) (parsed : Option Fields)
        → Keeps it (
            after_next (elim parsed [
              | some fields ↦ let (e, done) = found it' fields in entry e done
              | none ↦ if more then next_ext os fuel it' else finished it'
            ]))
    at it' same ih more (some fields) = found-is_open it' fields ∙ same
    at it' same ih true none = Keeps-trans it it' (after_next (next_ext os fuel it')) same (ih it')
    at it' same ih false none = same

    go :
        (o : Option Iterator)
        → Keeps it o
        → ((it' : Iterator) → Keeps it' (after_next (next_ext os fuel it')))
        → Keeps it (
            after_next (elim o [
              | none ↦ fault
              | some at_line ↦
                  let again = next_ext os fuel at_line in
                  elim (parse_line os (c_string at_line.ibuf at_line.stext)) [
                    | some fields ↦ let (e, done) = found at_line fields in entry e done
                    | none ↦ if ltb 0 at_line.etext then again else finished at_line
                  ]
            ]))
    go none k ih = tt
    go (some it') k ih = at it' k ih (ltb 0 it'.etext) (parse_line os (c_string it'.ibuf it'.stext))

calls-Keeps : (os : Platform) (fuels : List ℕ) (it : Iterator) → Keeps it (calls os fuels it)
unfolding calls
calls-Keeps os [] it = refl
calls-Keeps os (fuel ∷ fuels) it =
    go (after_next (next_ext os fuel it)) (next_ext-Keeps os fuel it) (calls-Keeps os fuels)
  where
    go :
        (o : Option Iterator)
        → Keeps it o
        → ((it' : Iterator) → Keeps it' (calls os fuels it'))
        → Keeps it (elim o [ none ↦ none | some it' ↦ calls os fuels it' ])
    go none k ih = tt
    go (some it') k ih = Keeps-trans it it' (calls os fuels it') k (ih it')

-- The destructor gives back what the constructor took.
destroy_back :
    (o : Owner) (it : Iterator) (d b : ℕ)
    → it.fd.is_open ≡ o.iterator.fd.is_open
    → destroy
        (record o { iterator = it })
        (record {
          descriptors = d + count_if o.iterator.fd.is_open;
          buffers = b + count_if o.dynamic_buffer;
        })
      ≡ record { descriptors = d; buffers = b }
unfolding destroy
destroy_back o it d b e =
    let one : d + count_if o.iterator.fd.is_open - count_if it.fd.is_open ≡ d =
      ap (λ t. d + count_if o.iterator.fd.is_open - count_if t) e ∙ omega arith in
    let two : b + count_if o.dynamic_buffer - count_if o.dynamic_buffer ≡ b = omega arith in
    ap₂ (λ x y. record { descriptors = x; buffers = y }) one two

-- No descriptor and no buffer is leaked or given back twice: an iterator that is constructed on any
-- process, with or without a buffer and backing, then asked for any number of entries, and then
-- destroyed, leaves the resources of the process as they were, whether its file could be opened or
-- not, and whatever the calls of Next returned, if none of them faulted.
pub construct-destroy :
    (os : Platform) (path_max : ℕ) (own_pid : ℤ) (open_file : Bytes → File) (pid : ℤ)
    (buffer : Option Bytes) (use_maps_backing : Bool) (fresh : Bytes) (r : Resources)
    (fuels : List ℕ) (it : Iterator)
    → let (o, r') =
        construct_backed os path_max own_pid open_file pid buffer use_maps_backing fresh r in
      calls os fuels o.iterator ≡ some it → destroy (record o { iterator = it }) r' ≡ r
unfolding construct_backed
construct-destroy os path_max own_pid open_file pid none use_maps_backing fresh r fuels it e =
    let o : Owner = record {
      iterator = init os path_max own_pid open_file fresh pid use_maps_backing;
      dynamic_buffer = true;
    } in
    destroy_back o it r.descriptors r.buffers
      (subst (Keeps o.iterator) e (calls-Keeps os fuels o.iterator))
construct-destroy os path_max own_pid open_file pid (some buf) use_maps_backing fresh r fuels it e =
    let o : Owner = record {
      iterator = init os path_max own_pid open_file buf pid use_maps_backing;
      dynamic_buffer = false;
    } in
    let same : r.buffers ≡ r.buffers + 0 = omega arith in
    ap
      (λ b.
        destroy (record o { iterator = it })
          (record { descriptors = r.descriptors + count_if o.iterator.fd.is_open; buffers = b }))
      same
    ∙ destroy_back o it r.descriptors r.buffers
        (subst (Keeps o.iterator) e (calls-Keeps os fuels o.iterator))
