-- ===== src/Maps/Iterator/Refine.antt =====
-- src/sysinfo.cpp, a call of Next and the first entry of the text.
use jointprof.Maps.Entries.{fields_entry, line_entry, first_entry}
use jointprof.Maps.Iterator.Advance.{AtLine, advance-AtLine}
use jointprof.Maps.Iterator.Next.{
  text_ahead, Ready, taken, lines-nil, c_string-AtLine, found-fields_entry, found-frame,
}
use jointprof.Maps.Iterator.{
  Iterator, Entry, Outcome, entry, finished, fault, no_fuel, advance, found, next_ext,
}
use jointprof.Maps.Line.{Fields}
use jointprof.Maps.Platform.{Platform, parse_line, parse_line-nil}
use jointprof.Maps.Memory.{until_nul, c_string}
use jointprof.Maps.Stream.{lines}
use jointprof.Common.{
  ℕ, zero, suc, ◌<◌, ◌≡◌, refl, ap, ◌∙◌, inl, inr, true, false, Option, none, some, List, [], ◌∷◌,
  arith, if◌then◌else◌, ltb, Bytes, length, Option-cases,
}

-- The outcome of Next is what the specification says: the first entry, with the iterator ready in
-- front of the lines behind it, or false when there is none.
abbrev pub Agrees : ℕ → Outcome → Option (Entry × List Bytes) → Type 0
Agrees ebuf (entry e it) (some (e', rest)) =
    (e ≡ e') × ((pending : Bytes) × Ready ebuf it pending × (lines (text_ahead it pending) ≡ rest))
Agrees ebuf (finished it) none = Unit
Agrees ebuf (entry e it) none = ⊥
Agrees ebuf (finished it) (some found) = ⊥
Agrees ebuf fault spec = ⊥
Agrees ebuf no_fuel spec = ⊥

pub parse-nil : (os : Platform) → parse_line os (until_nul []) ≡ none
unfolding until_nul
parse-nil os = parse_line-nil os

first_entry-some :
    (os : Platform) (line : Bytes) (rest : List Bytes) (fields : Fields)
    → parse_line os (until_nul line) ≡ some fields
    → first_entry os (line ∷ rest) ≡ some (fields_entry (until_nul line) fields, rest)
unfolding first_entry line_entry
first_entry-some os line rest fields e = rw (e, first_entry, line_entry)

first_entry-none :
    (os : Platform) (line : Bytes) (rest : List Bytes)
    → parse_line os (until_nul line) ≡ none
    → first_entry os (line ∷ rest) ≡ first_entry os rest
unfolding first_entry line_entry
first_entry-none os line rest e = rw (e, first_entry, line_entry)

-- The flags that are kept for the caller play no part in what follows.
Ready-flags :
    {ebuf : ℕ} {it : Iterator} {pending : Bytes} (flags : Bytes)
    → Ready ebuf it pending
    → Ready ebuf (record it { flags = flags }) pending
Ready-flags flags r = record {
  holds = record {
    before = r.holds.before;
    after = r.holds.after;
    buffer = r.holds.buffer;
    line_at = r.holds.line_at;
    end_at = r.holds.end_at;
    size = r.holds.size;
    within = r.holds.within;
  };
  mode = r.mode;
  opened = r.opened;
  safe = r.safe;
  same_ebuf = r.same_ebuf;
  fits = r.fits;
}

pub step_found :
    (os : Platform) (fuel : ℕ) (it it' : Iterator) (fields : Fields)
    → advance it ≡ some it'
    → parse_line os (c_string it'.ibuf it'.stext) ≡ some fields
    → next_ext os (suc fuel) it ≡ entry (found it' fields).0 (found it' fields).1
unfolding next_ext
step_found os fuel it it' fields adv p = rw (adv, next_ext) (rw p)

pub step_skip :
    (os : Platform) (fuel : ℕ) (it it' : Iterator)
    → advance it ≡ some it'
    → parse_line os (c_string it'.ibuf it'.stext) ≡ none
    → next_ext os (suc fuel) it ≡ (if ltb 0 it'.etext then next_ext os fuel it' else finished it')
unfolding next_ext
step_skip os fuel it it' adv p = rw (adv, next_ext) (rw p)

module _ (os : Platform) (fuel ebuf : ℕ) (it it' : Iterator) (pending line pending' : Bytes)
    (adv : advance it ≡ some it') (a : AtLine it it' pending line pending') where
  abbrev Goal : Type 0
  Goal = Agrees ebuf (next_ext os (suc fuel) it) (first_entry os (lines (text_ahead it pending)))

  parsed :
      (result : Option Fields)
      → parse_line os (until_nul line) ≡ result
      → parse_line os (c_string it'.ibuf it'.stext) ≡ result
  parsed result p = ap (parse_line os) (c_string-AtLine a) ∙ p

  agrees_found :
      (fields : Fields)
      → parse_line os (until_nul line) ≡ some fields
      → lines (text_ahead it pending) ≡ line ∷ lines (text_ahead it' pending')
      → Ready ebuf it' pending'
      → Goal
  agrees_found fields p cut r =
      rw
        (
          step_found os fuel it it' fields adv (parsed (some fields) p),
          cut,
          first_entry-some os line (lines (text_ahead it' pending')) fields p,
          found-frame it' fields r.mode,
        )
        (
          found-fields_entry it' fields r.mode
              ∙ ap (λ t. fields_entry t fields) (c_string-AtLine a),
          (pending', Ready-flags fields.flags r, refl),
        )

  agrees_skip :
      parse_line os (until_nul line) ≡ none
      → lines (text_ahead it pending) ≡ line ∷ lines (text_ahead it' pending')
      → 0 < it'.etext
      → Agrees ebuf (next_ext os fuel it') (first_entry os (lines (text_ahead it' pending')))
      → Goal
  agrees_skip p cut more ih =
      let test : ltb 0 it'.etext ≡ true = ground arith in
      rw
        (
          step_skip os fuel it it' adv (parsed none p),
          test,
          cut,
          first_entry-none os line (lines (text_ahead it' pending')) p,
        )
        ih

  agrees_end : text_ahead it pending ≡ [] → line ≡ [] → it'.etext ≡ 0 → Goal
  agrees_end nothing empty stop =
      let test : ltb 0 it'.etext ≡ false = ground arith in
      rw
        (
          step_skip os fuel it it' adv
              (parsed none (ap (λ t. parse_line os (until_nul t)) empty ∙ parse-nil os)),
          test,
          nothing,
          lines-nil,
        )
        (unfold first_entry in tt)

-- A call of Next, on fuel above the number of lines ahead, ends without a fault. It returns true with
-- the first entry of the lines ahead, and stands in front of the lines behind that one; it returns
-- false if no line ahead is an entry. The file is open and its reads do not fail, but may be
-- interrupted or short, and every line ahead is shorter than the buffer.
pub next_ext-Agrees :
    (os : Platform) (fuel ebuf : ℕ) (it : Iterator) (pending : Bytes)
    → 0 < ebuf
    → Ready ebuf it pending
    → length (lines (text_ahead it pending)) < fuel
    → Agrees ebuf (next_ext os fuel it) (first_entry os (lines (text_ahead it pending)))
next_ext-Agrees os zero ebuf it pending positive r enough = absurd (omega arith)
next_ext-Agrees os (suc fuel) ebuf it pending positive r enough =
    let (it', line, pending', adv, a) = advance-AtLine it pending r.holds in
    elim (taken ebuf it it' pending line pending' positive r a) [
      | inr (nothing, empty, stop) ↦
          agrees_end os fuel ebuf it it' pending line pending' adv a nothing empty stop
      | inl (cut, r', more) ↦ elim (Option-cases (parse_line os (until_nul line))) [
        | inr (fields, p) ↦
            agrees_found os fuel ebuf it it' pending line pending' adv a fields p cut r'
        | inl p ↦
            agrees_skip os fuel ebuf it it' pending line pending' adv a p cut more
              (next_ext-Agrees os fuel ebuf it' pending' positive r' (omega (arith, ap length cut)))
      ]
    ]
