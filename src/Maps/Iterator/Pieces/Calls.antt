-- ===== src/Maps/Iterator/Pieces/Calls.antt =====
-- src/sysinfo.cpp, a call of Next on any file: what it gives.
use jointprof.Maps.Entries.{entries}
use jointprof.Maps.Iterator.Advance.{AtLine, advance-AtLine}
use jointprof.Maps.Iterator.Next.{text_ahead, c_string-AtLine, found-fields_entry, found-frame}
use jointprof.Maps.Iterator.Refine.{parse-nil, step_found, step_skip}
use jointprof.Maps.Iterator.{Iterator, Outcome, entry, finished, fault, no_fuel, advance, next_ext}
use jointprof.Maps.Line.{Fields}
use jointprof.Maps.Memory.{until_nul, c_string}
use jointprof.Maps.Platform.{Platform, parse_line}
use jointprof.Common.{
  ℕ, zero, suc, ◌<◌, ◌≡◌, refl, ap, ◌∙◌, ◌⊎◌, inl, inr, true, false, Option, none, some, List, [],
  ◌∷◌, arith, ltb, Bytes, length, Option-cases,
}
use jointprof.Maps.Iterator.Pieces.{
  Pieces, Steady, Gives, Steady-flags, entries-some, entries-none, steady, eaten,
}

module _ (F : Type 0) (ebuf : ℕ) (positive : 0 < ebuf) where
  -- A line that is passed over becomes a piece in front of those of the rest of the loop.
  skipped :
      (os : Platform) (text text' line : Bytes) (o : Outcome)
      → length text' < length text
      → ((pieces : List Bytes) (left : Bytes)
          → Pieces F ebuf text' pieces left
          → Pieces F ebuf text (line ∷ pieces) left)
      → parse_line os (until_nul line) ≡ none
      → Gives os F ebuf text' o
      → Gives os F ebuf text o
  skipped os text text' line (entry e it) less put p (pending, h, shorter, continue) = (
    pending,
    h,
    omega arith,
    λ later left ps.
        let (all, cut, same) = continue later left ps in
        (line ∷ all, put all left cut, entries-none os line all p ∙ same),
  )
  skipped os text text' line (finished it) less put p (all, left, cut, same, done) =
      (line ∷ all, left, put all left cut, entries-none os line all p ∙ same, done)
  skipped os text text' line fault less put p g = absurd g
  skipped os text text' line no_fuel less put p g = absurd g

  module _ (os : Platform) (fuel : ℕ) (it it' : Iterator) (pending line pending' : Bytes)
      (s : Steady F ebuf it pending) (adv : advance it ≡ some it')
      (a : AtLine it it' pending line pending') where
    parsed :
        (result : Option Fields)
        → parse_line os (until_nul line) ≡ result
        → parse_line os (c_string it'.ibuf it'.stext) ≡ result
    parsed result p = ap (parse_line os) (c_string-AtLine a) ∙ p

    Gives-entry :
        (fields : Fields)
        → length (text_ahead it' pending') < length (text_ahead it pending)
        → ((pieces : List Bytes) (left : Bytes)
            → Pieces F ebuf (text_ahead it' pending') pieces left
            → Pieces F ebuf (text_ahead it pending) (line ∷ pieces) left)
        → parse_line os (until_nul line) ≡ some fields
        → Gives os F ebuf (text_ahead it pending) (next_ext os (suc fuel) it)
    Gives-entry fields less put p =
        let r = steady F ebuf positive it it' pending line pending' s a in
        rw
          (
            step_found os fuel it it' fields adv (parsed (some fields) p),
            found-frame it' fields r.mode,
            found-fields_entry it' fields r.mode,
            c_string-AtLine a,
          )
          (
            pending',
            Steady-flags fields.flags r,
            less,
            λ later left ps. (line ∷ later, put later left ps, entries-some os line later fields p),
          )

    Gives-finished :
        line ≡ []
        → it'.etext ≡ 0
        → F ⊎ (text_ahead it pending ≡ [])
        → Gives os F ebuf (text_ahead it pending) (next_ext os (suc fuel) it)
    unfolding Pieces entries
    Gives-finished empty stop done =
        let test : ltb 0 it'.etext ≡ false = ground arith in
        rw
          (
            step_skip os fuel it it' adv
                (parsed none (ap (λ t. parse_line os (until_nul t)) empty ∙ parse-nil os)),
            test,
          )
          ([], text_ahead it pending, refl, refl, done)

    Gives-next :
        0 < it'.etext
        → parse_line os (until_nul line) ≡ none
        → Gives os F ebuf (text_ahead it pending) (next_ext os fuel it')
        → Gives os F ebuf (text_ahead it pending) (next_ext os (suc fuel) it)
    Gives-next more p g =
        let test : ltb 0 it'.etext ≡ true = ground arith in
        rw (step_skip os fuel it it' adv (parsed none p), test) g

  -- A call of Next from any iterator whose buffer is in order ends without a fault, on fuel above the
  -- number of bytes ahead.
  pub next_ext-Gives :
      (os : Platform) (fuel : ℕ) (it : Iterator) (pending : Bytes)
      → Steady F ebuf it pending
      → length (text_ahead it pending) < fuel
      → Gives os F ebuf (text_ahead it pending) (next_ext os fuel it)
  next_ext-Gives os zero it pending s enough = absurd (omega arith)
  next_ext-Gives os (suc fuel) it pending s enough =
      let (it', line, pending', adv, a) = advance-AtLine it pending s.holds in
      elim (eaten F ebuf positive it it' pending line pending' s a) [
        | inr (empty, stop, done) ↦
            Gives-finished os fuel it it' pending line pending' s adv a empty stop done
        | inl (less, put, more) ↦ elim (Option-cases (parse_line os (until_nul line))) [
          | inr (fields, p) ↦
              Gives-entry os fuel it it' pending line pending' s adv a fields less put p
          | inl p ↦ Gives-next os fuel it it' pending line pending' s adv a more p (
              skipped os (text_ahead it pending) (text_ahead it' pending') line
                (next_ext os fuel it') less put p
                (next_ext-Gives os fuel it' pending'
                  (steady F ebuf positive it it' pending line pending' s a) (omega arith)))
        ]
      ]
