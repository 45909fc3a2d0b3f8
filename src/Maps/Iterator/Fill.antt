-- ===== src/Maps/Iterator/Fill.antt =====
-- src/sysinfo.cpp, the loop of NextExt that fills the buffer.
use mathlib.Core.Path.{ap₂}
use jointprof.Maps.File.Laws.{NoFailure, Reads, read_no_intr-Reads, read_no_intr-NoFailure}
use jointprof.Maps.File.{File, read_no_intr}
use jointprof.Maps.Iterator.{Fill, after_read, fill}
use jointprof.Maps.Memory.Laws.{store-append}
use jointprof.Maps.Memory.{store}
use jointprof.Common.{
  ℕ, zero, suc, ◌+◌, ◌-◌, ◌≤◌, ◌<◌, ◌≡◌, ◌≢◌, refl, sym, ap, ◌∙◌, ◌⊎◌, inl, inr, true, Option, none,
  some, [], ◌∷◌, ◌++◌, append-nil, append_assoc, arith, ltb, Bytes, length, length-append,
  length-take, length-drop, take, drop, take-append-drop, Bool-cases,
}

-- The buffer held `before` up to etext_ and `after` from there on; the loop has put `got` behind
-- `before`, taken from the file in order.
pub record Filled (before after : Bytes) (ebuf : ℕ) (fd : File) (r : Fill) : Type 0 where
  pub got : Bytes
  pub rest : Bytes
  pub buffer : r.0 ≡ (before ++ got) ++ rest
  pub end_at : r.1 ≡ length before + length got
  pub room : length got + length rest ≡ length after
  pub taken : got ++ r.3.unread ≡ fd.unread
  pub within : r.1 ≤ ebuf
  pub still_open : r.3.is_open ≡ fd.is_open
  pub complete :
      fd.is_open ≡ true
      → NoFailure fd.script
      → ((r.1 ≡ ebuf) ⊎ (r.3.unread ≡ [])) × NoFailure r.3.script

-- Nothing more is put into the buffer.
stays :
    (before after : Bytes) (ebuf etext : ℕ) (nread : Option ℕ) (fd fd' : File)
    → etext ≡ length before
    → etext ≤ ebuf
    → fd'.unread ≡ fd.unread
    → fd'.is_open ≡ fd.is_open
    → (fd.is_open ≡ true
        → NoFailure fd.script
        → ((etext ≡ ebuf) ⊎ (fd'.unread ≡ [])) × NoFailure fd'.script)
    → Filled before after ebuf fd (before ++ after, etext, nread, fd')
stays before after ebuf etext nread fd fd' e le same_text same_open c = record {
  got = [];
  rest = after;
  buffer = rw append-nil;
  end_at = omega arith;
  room = omega arith;
  taken = same_text;
  within = le;
  still_open = same_open;
  complete = c;
}

-- A write over the beginning of what stood behind etext_.
pub store-split :
    (before after new : Bytes) (etext : ℕ)
    → etext ≡ length before
    → length new ≤ length after
    → store (before ++ after) etext new ≡ (before ++ new) ++ drop (length new) after
store-split before after new etext e fits =
    ap₂ (λ t i. store (before ++ t) i new) (sym (take-append-drop (length new) after)) e
    ∙ store-append before (take (length new) after) (drop (length new) after) new
        (omega (arith, length-take (length new) after))
    ∙ sym (append_assoc before new (drop (length new) after))

-- What the rest of the loop adds to a first read.
extend :
    (before after new : Bytes) (ebuf : ℕ) (fd fd' : File) {r : Fill}
    → new ++ fd'.unread ≡ fd.unread
    → length new + length (drop (length new) after) ≡ length after
    → fd'.is_open ≡ fd.is_open
    → (fd.is_open ≡ true → NoFailure fd.script → NoFailure fd'.script)
    → Filled (before ++ new) (drop (length new) after) ebuf fd' r
    → Filled before after ebuf fd r
extend before after new ebuf fd fd' text size opened safe f = record {
  got = new ++ f.got;
  rest = f.rest;
  buffer = f.buffer ∙ ap (λ t. t ++ f.rest) (append_assoc before new f.got);
  end_at = omega (arith, f.end_at, length-append before new, length-append new f.got);
  room = omega (arith, f.room, length-append new f.got);
  taken = append_assoc new f.got _ ∙ ap (λ t. new ++ t) f.taken ∙ text;
  within = f.within;
  still_open = f.still_open ∙ opened;
  complete = λ o h. f.complete (opened ∙ o) (safe o h);
}

-- One round: a read, and what the rest of the loop does with any longer text.
round-Filled :
    (rounds : ℕ) (before after : Bytes) (etext ebuf : ℕ) (fd : File)
    → ((before' after' : Bytes) (etext' : ℕ) (nread' : Option ℕ) (fd' : File)
        → etext' ≡ length before'
        → etext' ≤ ebuf
        → ebuf ≤ etext' + rounds
        → length before' + length after' ≡ ebuf + 1
        → Filled before' after' ebuf fd' (fill rounds ebuf (before' ++ after') etext' nread' fd'))
    → etext ≡ length before
    → etext < ebuf
    → ebuf ≤ etext + suc rounds
    → length before + length after ≡ ebuf + 1
    → (b : Option Bytes) (fd' : File) → Reads (ebuf - etext) fd.unread b fd'.unread
    → fd'.is_open ≡ fd.is_open
    → (fd.is_open ≡ true → NoFailure fd.script → (b ≢ none) × NoFailure fd'.script)
    → Filled before after ebuf fd (after_read (fill rounds ebuf) (before ++ after) etext b fd')
unfolding after_read
round-Filled rounds before after etext ebuf fd ih e lt enough size none fd' reads opened safe =
    stays before after ebuf etext none fd fd' e (omega arith) (reads.keeps refl) opened
      (λ o h. absurd ((safe o h).0 refl))
round-Filled rounds before after etext ebuf fd ih e lt enough size (some []) fd' reads opened safe =
    stays before after ebuf etext (some 0) fd fd' e (omega arith) (reads.gives [] refl).0 opened
      (λ o h. (inr ((reads.gives [] refl).2 refl), (safe o h).1))
round-Filled rounds before after etext ebuf fd ih e lt enough size (some (c ∷ more)) fd' reads
      opened safe =
    let new = c ∷ more in
    let (text, fits, _) = reads.gives new refl in
    let short = length-append before new in
    rw (store-split before after new etext e (omega arith)) (
      extend before after new ebuf fd fd' text (omega (arith, length-drop (length new) after))
        opened (λ o h. (safe o h).1)
        (ih (before ++ new) (drop (length new) after) (etext + length new) (some (length new)) fd'
          (omega arith) (omega arith) (omega arith)
          (omega (arith, length-drop (length new) after))))

-- The loop that fills the buffer, on as many rounds as there is room: it puts bytes of the file in
-- order behind the text, never beyond ebuf_, leaves what stood before, and if the file is open and no read fails it
-- stops only at ebuf_ or at the end of the file.
pub fill-Filled :
    (rounds : ℕ) (before after : Bytes) (etext ebuf : ℕ) (nread : Option ℕ) (fd : File)
    → etext ≡ length before
    → etext ≤ ebuf
    → ebuf ≤ etext + rounds
    → length before + length after ≡ ebuf + 1
    → Filled before after ebuf fd (fill rounds ebuf (before ++ after) etext nread fd)
unfolding fill
fill-Filled zero before after etext ebuf nread fd e le enough size =
    stays before after ebuf etext nread fd fd e le refl refl (λ _ h. (inl (omega arith), h))
fill-Filled (suc rounds) before after etext ebuf nread fd e le enough size =
    elim (Bool-cases (ltb etext ebuf)) [
      | inr full ↦ rw full (
          stays before after ebuf etext nread fd fd e le refl refl (λ _ h. (inl (ground arith), h)))
      | inl space ↦
          let lt : etext < ebuf = ground arith in
          let (reads, opened) = read_no_intr-Reads fd (ebuf - etext) (omega arith) in
          rw space (
            round-Filled rounds before after etext ebuf fd
              (λ b' a' e' n' f'. fill-Filled rounds b' a' e' ebuf n' f') e lt enough size
              (read_no_intr fd (ebuf - etext)).0 (read_no_intr fd (ebuf - etext)).1 reads opened
              (read_no_intr-NoFailure fd (ebuf - etext)))
    ]
