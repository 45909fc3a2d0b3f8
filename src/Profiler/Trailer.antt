-- ===== src/Profiler/Trailer.antt =====
-- src/profiler.cpp, the loop of write_trailer over the memory maps.
pub mod Listing
pub mod Mappings
pub mod Pieces
mod Examples
use mathlib.Core.Path.{ap₂}
use jointprof.Maps.Entries.{entries, first_entry, FirstOf, first_entry-FirstOf}
use jointprof.Maps.File.Laws.{NoFailure}
use jointprof.Maps.File.{File}
use jointprof.Maps.Platform.{Platform}
use jointprof.Maps.Init.{k_buf_size, k_buf_size_large, self_file, init, init-Ready}
use jointprof.Maps.Format.{line_text, format_line}
use jointprof.Maps.Iterator.Next.{text_ahead, Ready}
use jointprof.Maps.Iterator.Refine.{Agrees, next_ext-Agrees}
use jointprof.Maps.Iterator.{Iterator, Entry, Outcome, entry, finished, fault, no_fuel, next}
use jointprof.Maps.Stream.{lines}
use jointprof.Common.{
  ℕ, zero, suc, ◌-◌, ◌≤◌, ◌<◌, ◌≡◌, refl, sym, ap, ◌∙◌, true, false, Option, none, some, List, [],
  ◌∷◌, ◌++◌, append-nil, append_assoc, arith, leb, if◌then◌else◌, Bytes, length, take, take_all,
  Bool-cases, ◌⊎◌, inl, inr, ℤ, pos, All,
}

-- What one round of the loop writes: FormatLine into a line buffer of `bufsize` bytes, and as many of
-- its bytes as FormatLine returns.
unfoldable pub write_entry : ℕ → Entry → Bytes
write_entry bufsize e =
    let (written, linebuf) =
      format_line bufsize e.start e.end (some e.flags) e.offset e.inode e.filename 0 in
    take written linebuf

-- The loop `while (it.Next(…))`; `none` is a fault or the end of the fuel, of which `fuel` counts
-- the rounds, and `lines_left` bounds the lines that one call of Next passes over.
unfoldable pub write_maps : Platform → ℕ → ℕ → ℕ → Iterator → Bytes → Option Bytes
write_maps os zero lines_left bufsize it out = none
write_maps os (suc fuel) lines_left bufsize it out = elim (next os lines_left it) [
  | entry e it' ↦ write_maps os fuel lines_left bufsize it' (out ++ write_entry bufsize e)
  | finished it' ↦ some out
  | fault ↦ none
  | no_fuel ↦ none
]

-- The canonical line of an entry, with the device zero.
abbrev pub entry_line : Entry → Bytes
entry_line e = line_text e.start e.end (some e.flags) e.offset e.inode e.filename 0 ++ (b'\n' ∷ [])

-- The canonical lines of entries; a line that does not fit into the line buffer is left out.
unfoldable pub entries_text : ℕ → List Entry → Bytes
entries_text bufsize [] = []
entries_text bufsize (e ∷ es) =
    let rest = entries_text bufsize es in
    if leb bufsize (length (entry_line e)) then rest else entry_line e ++ rest

write_entry_lem :
    (bufsize : ℕ) (e : Entry)
    → write_entry bufsize e ≡ (if leb bufsize (length (entry_line e)) then [] else entry_line e)
unfolding write_entry format_line
write_entry_lem bufsize e = elim (Bool-cases (leb bufsize (length (entry_line e)))) [
  | inl long ↦ rw long
  | inr fits ↦
      let short : length (entry_line e) ≤ bufsize - 1 = ground arith in
      rw fits (
        rw (take_all (bufsize - 1) (entry_line e) short)
          (take_all (length (entry_line e)) (entry_line e) (omega arith)))
]

pub entries_text-cons :
    (bufsize : ℕ) (e : Entry) (es : List Entry)
    → entries_text bufsize (e ∷ es) ≡ write_entry bufsize e ++ entries_text bufsize es
unfolding entries_text
entries_text-cons bufsize e es =
    rw write_entry_lem (split (Bool-cases (leb bufsize (length (entry_line e)))))
  where
    split :
        (leb bufsize (length (entry_line e)) ≡ true) ⊎ (leb bufsize (length (entry_line e)) ≡ false)
        → (if leb bufsize (length (entry_line e))
            then entries_text bufsize es
            else entry_line e ++ entries_text bufsize es)
          ≡ (if leb bufsize (length (entry_line e)) then [] else entry_line e)
            ++ entries_text bufsize es
    split (inl long) = rw long
    split (inr fits) = rw fits

-- One round of the loop, given the rest of it.
round :
    (os : Platform) (fuel lines_left bufsize ebuf : ℕ) (all : List Bytes) (out : Bytes)
    → ((it : Iterator) (pending out' : Bytes)
        → Ready ebuf it pending
        → length (lines (text_ahead it pending)) < length all
        → write_maps os fuel lines_left bufsize it out'
          ≡ some (out' ++ entries_text bufsize (entries os (lines (text_ahead it pending)))))
    → (o : Outcome) (spec : Option (Entry × List Bytes)) → Agrees ebuf o spec
    → FirstOf os all spec
    → (it : Iterator) → next os lines_left it ≡ o
    → write_maps os (suc fuel) lines_left bufsize it out
      ≡ some (out ++ entries_text bufsize (entries os all))
unfolding write_maps
round os fuel lines_left bufsize ebuf all out ih (entry e it') (some (e', rest))
      (same, (pending, r, cut)) (first, shorter) it o =
    rw (o, write_maps)
      (ih it' pending (out ++ write_entry bufsize e) r (rw cut shorter)
        ∙ ap some (
            append_assoc out (write_entry bufsize e) _
            ∙ ap (λ t. out ++ t)
                (ap₂ (λ f ls. write_entry bufsize f ++ entries_text bufsize (entries os ls)) same
                    cut
                  ∙ sym (entries_text-cons bufsize e' (entries os rest))
                  ∙ ap (entries_text bufsize) (sym first))))
round os fuel lines_left bufsize ebuf all out ih (finished it') none agrees first it o =
    rw (o, write_maps) (rw first (ap some (sym (append-nil out) ∙ unfold entries_text in refl)))
round os fuel lines_left bufsize ebuf all out ih (entry e it') none agrees first it o =
    absurd agrees
round os fuel lines_left bufsize ebuf all out ih (finished it') (some found) agrees first it o =
    absurd agrees
round os fuel lines_left bufsize ebuf all out ih fault spec agrees first it o = absurd agrees
round os fuel lines_left bufsize ebuf all out ih no_fuel spec agrees first it o = absurd agrees

-- The loop ends, and writes the canonical lines of all entries of the text in front of the iterator.
pub write_maps-entries_text :
    (os : Platform) (fuel lines_left bufsize ebuf : ℕ) (it : Iterator) (pending out : Bytes)
    → 0 < ebuf
    → Ready ebuf it pending
    → length (lines (text_ahead it pending)) < fuel
    → length (lines (text_ahead it pending)) < lines_left
    → write_maps os fuel lines_left bufsize it out
      ≡ some (out ++ entries_text bufsize (entries os (lines (text_ahead it pending))))
write_maps-entries_text os zero lines_left bufsize ebuf it pending out positive r h k =
    absurd (omega arith)
write_maps-entries_text os (suc fuel) lines_left bufsize ebuf it pending out positive r h k =
    let all = lines (text_ahead it pending) in
    round os fuel lines_left bufsize ebuf all out
      (λ it' pending' out' r' shorter.
        write_maps-entries_text os fuel lines_left bufsize ebuf it' pending' out' positive r'
          (omega arith) (omega arith))
      (next os lines_left it) (first_entry os all)
      (next_ext-Agrees os lines_left ebuf it pending positive r k) (first_entry-FirstOf os all) it
      refl

module _ (os : Platform) (path_max : ℕ) (own_pid : ℤ) (open_file : Bytes → File) where
  -- The loop of write_trailer from `ProcMapsIterator it(0, &iterbuf)` on, with `fuel` rounds and as
  -- many lines to a round.
  unfoldable pub trailer_maps : ℕ → Bytes → Option Bytes
  trailer_maps fuel iterbuf =
      write_maps os fuel fuel (k_buf_size os path_max)
        (init os path_max own_pid open_file iterbuf (pos 0) false) []

  -- The trailer of a profile holds the canonical lines of all entries of the process's own maps that fit into
  -- the line buffer, whatever the buffer held and however the reads cut the file up, if the file opens,
  -- no read fails and each line of the file is shorter than the buffer; and the loops end, on fuel above
  -- the number of lines.
  pub trailer_maps-entries_text :
      (fuel : ℕ) (iterbuf : Bytes)
      → let file = open_file (self_file os) in
        let size = k_buf_size os path_max in
        length iterbuf ≡ size
        → file.is_open ≡ true
        → NoFailure file.script
        → All (λ line. length line < size - 1) (lines file.unread)
        → length (lines file.unread) < fuel
        → trailer_maps fuel iterbuf ≡ some (entries_text size (entries os (lines file.unread)))
  unfolding trailer_maps
  trailer_maps-entries_text fuel iterbuf size opened safe fits enough =
      let (ready, same) = init-Ready os path_max own_pid open_file iterbuf size opened safe fits in
      let all = ap lines same in
      write_maps-entries_text os fuel fuel _ _ _ [] [] (omega (arith, k_buf_size_large os path_max))
        ready (omega (arith, ap length all)) (omega (arith, ap length all))
      ∙ ap (λ (ls : List Bytes). some (entries_text (k_buf_size os path_max) (entries os ls))) all
