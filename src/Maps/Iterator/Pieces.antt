-- ===== src/Maps/Iterator/Pieces.antt =====
-- src/sysinfo.cpp, a call of Next on any file: one that is not open, whose reads fail, or whose
-- lines are longer than the buffer.
pub mod Calls
use mathlib.Core.Path.{ap₂}
use jointprof.Maps.Entries.{fields_entry, line_entry, entries}
use jointprof.Maps.File.Laws.{NoFailure}
use jointprof.Maps.Iterator.Advance.{Ended, Last, AtLine, advance-AtLine}
use jointprof.Maps.Iterator.Next.{text_ahead, c_string-AtLine, found-fields_entry, found-frame}
use jointprof.Maps.Iterator.Refine.{parse-nil, step_found, step_skip}
use jointprof.Maps.Iterator.Shift.{Holds}
use jointprof.Maps.Iterator.{Iterator, Outcome, entry, finished, fault, no_fuel, advance, next_ext}
use jointprof.Maps.Line.{Fields}
use jointprof.Maps.Memory.{until_nul, c_string}
use jointprof.Maps.Platform.{Platform, parse_line}
use jointprof.Common.{
  ℕ, zero, suc, ◌<◌, ◌≡◌, ◌≢◌, refl, sym, ap, ◌∙◌, ◌⊎◌, inl, inr, true, false, Option, none, some,
  List, [], ◌∷◌, ◌++◌, arith, ltb, Bytes, length, length-append, nil_cases, length_pos, Lacks,
  Option-cases,
}

-- `text` falls into the pieces, in order, and `left` behind them. Each piece is without a newline. Behind it
-- stands a newline that belongs to no piece; or it is not empty and the next piece follows at once, and then it fills
-- the buffer or is the end of the text, unless `F` holds.
unfoldable pub Pieces : Type 0 → ℕ → Bytes → List Bytes → Bytes → Type 0
Pieces F ebuf text [] left = text ≡ left
Pieces F ebuf text (piece ∷ pieces) left =
    (rest : Bytes) × ((piece ++ (b'\n' ∷ rest) ≡ text)
      ⊎ ((piece ++ rest ≡ text) × (piece ≢ []) × (F ⊎ ((length piece ≡ ebuf) ⊎ (rest ≡ [])))))
    × Lacks b'\n' piece
    × Pieces F ebuf rest pieces left

-- The buffer is in order; and the file is open and its reads do not fail, unless `F` holds.
pub record Steady (F : Type 0) (ebuf : ℕ) (it : Iterator) (pending : Bytes) : Type 0 where
  pub holds : Holds it pending
  pub mode : it.using_maps_backing ≡ false
  pub same_ebuf : it.ebuf ≡ ebuf
  pub safe : F ⊎ ((it.fd.is_open ≡ true) × NoFailure it.fd.script)

-- What a call of Next gives in front of `text`: an entry, with less text ahead, whose pieces
-- continue those that the call has read; or false, where the pieces that it has read hold no entry, and
-- nothing is left unless `F` holds.
abbrev pub Gives : Platform → Type 0 → ℕ → Bytes → Outcome → Type 0
Gives os F ebuf text (entry e it) =
    (pending : Bytes) × Steady F ebuf it pending
    × (length (text_ahead it pending) < length text)
    × ((later : List Bytes) (left : Bytes)
        → Pieces F ebuf (text_ahead it pending) later left
        → (all : List Bytes) × Pieces F ebuf text all left
          × (entries os all ≡ e ∷ entries os later))
Gives os F ebuf text (finished it) =
    (all : List Bytes) × (left : Bytes) × Pieces F ebuf text all left
    × (entries os all ≡ [])
    × (F ⊎ (left ≡ []))
Gives os F ebuf text fault = ⊥
Gives os F ebuf text no_fuel = ⊥

pub entries-some :
    (os : Platform) (line : Bytes) (rest : List Bytes) (fields : Fields)
    → parse_line os (until_nul line) ≡ some fields
    → entries os (line ∷ rest) ≡ fields_entry (until_nul line) fields ∷ entries os rest
unfolding entries line_entry
entries-some os line rest fields e = rw (e, entries, line_entry)

pub entries-none :
    (os : Platform) (line : Bytes) (rest : List Bytes)
    → parse_line os (until_nul line) ≡ none
    → entries os (line ∷ rest) ≡ entries os rest
unfolding entries line_entry
entries-none os line rest e = rw (e, entries, line_entry)

-- The flags that are kept for the caller play no part in what follows.
pub Steady-flags :
    {F : Type 0} {ebuf : ℕ} {it : Iterator} {pending : Bytes} (flags : Bytes)
    → Steady F ebuf it pending
    → Steady F ebuf (record it { flags = flags }) pending
Steady-flags flags s = record {
  holds = record {
    before = s.holds.before;
    after = s.holds.after;
    buffer = s.holds.buffer;
    line_at = s.holds.line_at;
    end_at = s.holds.end_at;
    size = s.holds.size;
    within = s.holds.within;
  };
  mode = s.mode;
  same_ebuf = s.same_ebuf;
  safe = s.safe;
}

-- One line does one of two things: it is a piece of the text ahead, or nothing was read.
abbrev pub Eaten : Type 0 → ℕ → Bytes → Bytes → Bytes → ℕ → Type 0
Eaten F ebuf text line text' etext =
    ((length text' < length text)
      × ((pieces : List Bytes) (left : Bytes)
          → Pieces F ebuf text' pieces left
          → Pieces F ebuf text (line ∷ pieces) left)
      × (0 < etext))
    ⊎ ((line ≡ []) × (etext ≡ 0) × (F ⊎ (text ≡ [])))

module _ (F : Type 0) (ebuf : ℕ) (positive : 0 < ebuf) where
  module _ (it it' : Iterator) (pending line pending' : Bytes) (s : Steady F ebuf it pending)
      (a : AtLine it it' pending line pending') where
    pub steady : Steady F ebuf it' pending'
    steady = record {
      holds = a.holds;
      mode = a.same_mode ∙ s.mode;
      same_ebuf = a.same_ebuf ∙ s.same_ebuf;
      safe = elim s.safe [
        | inl x ↦ inl x
        | inr (opened, fine) ↦ inr (a.same_open ∙ opened, a.safe opened fine)
      ];
    }

    Eaten-Ended :
        Ended it it' pending line pending'
        → Eaten F ebuf (text_ahead it pending) line (text_ahead it' pending') it'.etext
    unfolding Pieces
    Eaten-Ended (e, more) =
        let rest = text_ahead it' pending' in
        inl (
          omega (arith, ap length e, length-append line (b'\n' ∷ rest)),
          λ pieces left p. (rest, inl e, a.lacks, p),
          more,
        )

    module _ (l : Last it it' pending line pending') where
      same_rest : text_ahead it' pending' ≡ it'.fd.unread
      same_rest = ap (λ t. t ++ it'.fd.unread) l.nothing

      -- Such a line fills the buffer, or it is the end.
      whole : F ⊎ ((length line ≡ ebuf) ⊎ (text_ahead it' pending' ≡ []))
      whole = elim s.safe [
        | inl x ↦ inl x
        | inr (opened, fine) ↦ elim (l.complete opened fine) [
          | inl full ↦ inr (inl (full ∙ s.same_ebuf))
          | inr done ↦ inr (inr (same_rest ∙ done))
        ]
      ]

      cut : line ++ text_ahead it' pending' ≡ text_ahead it pending
      cut = ap (λ t. line ++ t) same_rest ∙ l.text

      eaten_nothing : line ≡ [] → F ⊎ (text_ahead it pending ≡ [])
      eaten_nothing empty = elim whole [
        | inl x ↦ inl x
        | inr (inl full) ↦ absurd (omega (arith, full, ap length empty))
        | inr (inr done) ↦ inr (sym cut ∙ ap₂ ◌++◌ empty done)
      ]

      Eaten-Last : Eaten F ebuf (text_ahead it pending) line (text_ahead it' pending') it'.etext
      unfolding Pieces
      Eaten-Last = elim (nil_cases line) [
        | inl empty ↦ inr (empty, omega (arith, l.end_at, ap length empty), eaten_nothing empty)
        | inr ne ↦
            let rest = text_ahead it' pending' in
            let some_text = length_pos line ne in
            inl (
              omega (arith, ap length cut, length-append line rest, some_text),
              λ pieces left p. (rest, inr (cut, ne, whole), a.lacks, p),
              omega (arith, l.end_at, some_text),
            )
      ]

    pub eaten : Eaten F ebuf (text_ahead it pending) line (text_ahead it' pending') it'.etext
    eaten = elim a.text [ inl e ↦ Eaten-Ended e | inr l ↦ Eaten-Last l ]
