-- ===== src/Maps/Iterator/Next.antt =====
-- src/sysinfo.cpp, NextExt behind its line parser: the entry handed out, and the text in front of the
-- iterator.
use mathlib.Core.Path.{ap₂}
use jointprof.Maps.Backing.{Pages, no_pages}
use jointprof.Maps.Entries.{fields_entry}
use jointprof.Maps.File.Laws.{NoFailure}
use jointprof.Maps.Iterator.Advance.{Ended, Last, AtLine}
use jointprof.Maps.Iterator.Shift.{Holds}
use jointprof.Maps.Iterator.{Iterator, name_offset, take_backing, found}
use jointprof.Maps.Line.{Fields}
use jointprof.Maps.Memory.{until_nul, c_string}
use jointprof.Maps.Stream.{lines, lines-append, lines_prefix, lines-Lacks}
use jointprof.Common.{
  ℕ, zero, suc, ◌+◌, ◌≤◌, ◌<◌, ◌≡◌, ◌≢◌, refl, sym, ap, ◌∙◌, subst, ◌⊎◌, inl, inr, true, false, [],
  ◌∷◌, ◌++◌, append-nil, arith, ◌==◌, Bytes, length, length-append, drop, drop-drop, drop_append,
  nil_cases, length_pos, Bool-cases, All,
}

-- What is in front of the iterator: the rest of the buffer, then the rest of the file.
abbrev pub text_ahead : Iterator → Bytes → Bytes
text_ahead it pending = pending ++ it.fd.unread

until_nul-zero : (line rest : Bytes) → until_nul (line ++ (0 ∷ rest)) ≡ until_nul line
unfolding until_nul
until_nul-zero [] rest = refl
until_nul-zero (x ∷ line) rest = rw (until_nul-zero line rest)

drop-until_nul :
    (k : ℕ) (text : Bytes)
    → k ≤ length (until_nul text)
    → until_nul (drop k text) ≡ drop k (until_nul text)
unfolding until_nul
drop-until_nul zero text h = refl
drop-until_nul (suc k) [] h = refl
drop-until_nul (suc k) (x ∷ text) h = elim (Bool-cases (x == 0)) [
  | inl e ↦ let none_left : suc k ≤ 0 = rw e at h in absurd (omega arith)
  | inr e ↦ rw e (
      drop-until_nul k text
        (let fits : suc k ≤ suc (length (until_nul text)) = rw e at h in omega arith))
]

-- The line that stext_ points to.
pub c_string-AtLine :
    {it it' : Iterator} {pending line pending' : Bytes}
    → AtLine it it' pending line pending'
    → c_string it'.ibuf it'.stext ≡ until_nul line
unfolding c_string
c_string-AtLine {it' = it'} {line = line} a =
    rw (a.buffer, a.line_at, drop_append a.before (line ++ (0 ∷ a.behind)))
      (until_nul-zero line a.behind)

name_offset_le : (offset n : ℕ) → name_offset offset n ≤ n
unfolding name_offset
name_offset_le offset n = ground arith

c_string-drop :
    (buf : Bytes) (i k : ℕ)
    → k ≤ length (c_string buf i)
    → c_string buf (i + k) ≡ drop k (c_string buf i)
unfolding c_string
c_string-drop buf i k h = ap until_nul (drop-drop i k buf) ∙ drop-until_nul k (drop i buf) h

-- The entry that is handed out is the one of the line.
pub found-fields_entry :
    (it : Iterator) (fields : Fields)
    → it.using_maps_backing ≡ false
    → (found it fields).0 ≡ fields_entry (c_string it.ibuf it.stext) fields
unfolding found take_backing fields_entry
found-fields_entry it fields mode = rw mode (
    rw (
      c_string-drop it.ibuf it.stext _
        (name_offset_le fields.filename_offset (length (c_string it.ibuf it.stext)))))

take_backing_off :
    (it : Iterator) (filename : ℕ)
    → it.using_maps_backing ≡ false
    → take_backing it filename ≡ (it.ibuf, no_pages)
unfolding take_backing
take_backing_off it filename mode = rw mode

-- Handing out an entry leaves the pointers and the file alone.
pub found-frame :
    (it : Iterator) (fields : Fields)
    → it.using_maps_backing ≡ false
    → (found it fields).1 ≡ record it { flags = fields.flags }
unfolding found
found-frame it fields mode =
    ap (λ (b : Bytes × Pages). record it { ibuf = b.0; flags = fields.flags })
      (take_backing_off it _ mode)

-- The iterator reads a file whose reads do not fail, and every line in front of it fits into the
-- buffer.
pub record Ready (ebuf : ℕ) (it : Iterator) (pending : Bytes) : Type 0 where
  pub holds : Holds it pending
  pub mode : it.using_maps_backing ≡ false
  pub opened : it.fd.is_open ≡ true
  pub safe : NoFailure it.fd.script
  pub same_ebuf : it.ebuf ≡ ebuf
  pub fits : All (λ line. length line < ebuf) (lines (text_ahead it pending))

pub lines-nil : lines [] ≡ []
unfolding lines
lines-nil = refl

-- What one line does to the text ahead: it is the first line, or nothing is left.
abbrev pub Taken : ℕ → Iterator → Iterator → Bytes → Bytes → Bytes → Type 0
Taken ebuf it it' pending line pending' =
    ((lines (text_ahead it pending) ≡ line ∷ lines (text_ahead it' pending'))
      × Ready ebuf it' pending'
      × (0 < it'.etext))
    ⊎ ((text_ahead it pending ≡ []) × (line ≡ []) × (it'.etext ≡ 0))

module _ (ebuf : ℕ) (it it' : Iterator) (pending line pending' : Bytes) (positive : 0 < ebuf)
    (r : Ready ebuf it pending) (a : AtLine it it' pending line pending') where
  ready : All (λ l. length l < ebuf) (lines (text_ahead it' pending')) → Ready ebuf it' pending'
  ready f = record {
    holds = a.holds;
    mode = a.same_mode ∙ r.mode;
    opened = a.same_open ∙ r.opened;
    safe = a.safe r.opened r.safe;
    same_ebuf = a.same_ebuf ∙ r.same_ebuf;
    fits = f;
  }

  Taken-Ended : Ended it it' pending line pending' → Taken ebuf it it' pending line pending'
  Taken-Ended (e, some_text) =
      let cut = ap lines (sym e) ∙ lines-append line (text_ahead it' pending') a.lacks in
      inl (cut, ready (subst (All (λ l. length l < ebuf)) cut r.fits).1, some_text)

  -- The buffer is not filled by one line.
  not_full : line ≢ [] → (rest : Bytes) → line ++ rest ≡ text_ahead it pending → length line < ebuf
  not_full ne rest e =
      let (more, others, first) = lines_prefix line rest a.lacks ne in
      let bound = (subst (All (λ l. length l < ebuf)) (ap lines (sym e) ∙ first) r.fits).0 in
      omega (arith, bound, length-append line more)

  module _ (l : Last it it' pending line pending') where
    -- The file is read to its end.
    spent : length line < ebuf → it'.fd.unread ≡ []
    spent short = elim (l.complete r.opened r.safe) [
      | inl full ↦ absurd (omega (arith, full, r.same_ebuf))
      | inr done ↦ done
    ]

    nothing_ahead : length line < ebuf → text_ahead it' pending' ≡ []
    nothing_ahead short = ap₂ ◌++◌ l.nothing (spent short)

    all_text : length line < ebuf → text_ahead it pending ≡ line
    all_text short = sym l.text ∙ ap (λ t. line ++ t) (spent short) ∙ append-nil line

    Taken-one : line ≢ [] → Taken ebuf it it' pending line pending'
    Taken-one ne =
        let short = not_full ne it'.fd.unread l.text in
        let none_left = nothing_ahead short in
        inl (
          ap lines (all_text short)
              ∙ lines-Lacks line a.lacks ne
              ∙ ap (λ t. line ∷ t) (sym lines-nil ∙ ap lines (sym none_left)),
          ready (subst (All (λ l. length l < ebuf)) (sym lines-nil ∙ ap lines (sym none_left)) tt),
          omega (arith, l.end_at, length_pos line ne),
        )

    Taken-nothing : line ≡ [] → Taken ebuf it it' pending line pending'
    Taken-nothing e =
        let empty = ap length e in
        inr (all_text (omega (arith, empty)) ∙ e, e, omega (arith, l.end_at, empty))

  pub taken : Taken ebuf it it' pending line pending'
  taken = elim a.text [
    | inl e ↦ Taken-Ended e
    | inr l ↦ elim (nil_cases line) [ inl e ↦ Taken-nothing l e | inr ne ↦ Taken-one l ne ]
  ]
