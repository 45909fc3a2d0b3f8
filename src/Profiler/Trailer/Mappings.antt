-- ===== src/Profiler/Trailer/Mappings.antt =====
-- src/sysinfo.cpp, every mapping that is listed on Linux can stand in a profile, if its line fits.
use jointprof.Clib.Chars.{StartsDark}
use jointprof.Maps.Entries.{fields_entry, line_entry, entries}
use jointprof.Maps.Iterator.{Entry, name_offset}
use jointprof.Maps.Line.{Fields, parse_proc_maps_line}
use jointprof.Maps.Line.Ranges.{parse_proc_maps_line-Fits}
use jointprof.Maps.Line.Tail.{name_of, parse_proc_maps_line-name}
use jointprof.Maps.Memory.{until_nul}
use jointprof.Maps.Plain.{IsPlain}
use jointprof.Maps.Platform.{linux, parse_line}
use jointprof.Maps.Stream.{push_byte, lines}
use jointprof.Profiler.Trailer.{entry_line}
use jointprof.Profiler.Trailer.Listing.{IsMapping}
use jointprof.Common.{
  ℕ, zero, suc, ◌<◌, ◌≡◌, ◌≢◌, ◌⊎◌, inl, inr, refl, ◌||◌, Option, none, some, List, [], ◌∷◌, ltb,
  ◌==◌, Bool-cases, Bytes, length, drop, Lacks, All, arith,
}

All-drop : (n : ℕ) (s : Bytes) → All IsPlain s → All IsPlain (drop n s)
All-drop zero s h = h
All-drop (suc n) [] h = tt
All-drop (suc n) (c ∷ s) (p, h) = All-drop n s h

until_nul-IsPlain : (line : Bytes) → Lacks b'\n' line → All IsPlain (until_nul line)
unfolding until_nul
until_nul-IsPlain [] h = tt
until_nul-IsPlain (c ∷ line) (ne, h) = elim (Bool-cases (c == 0)) [
  | inl e ↦ rw e tt
  | inr e ↦ rw e ((ground arith, ne), until_nul-IsPlain line h)
]

push_byte-Lacks :
    (c : ℕ) (ls : List Bytes)
    → c ≢ b'\n'
    → All (Lacks b'\n') ls
    → All (Lacks b'\n') (push_byte c ls)
unfolding push_byte
push_byte-Lacks c [] ne h = ((ne, tt), tt)
push_byte-Lacks c (line ∷ rest) ne (l, h) = ((ne, l), h)

pub lines-Lacks_each : (text : Bytes) → All (Lacks b'\n') (lines text)
unfolding lines
lines-Lacks_each [] = tt
lines-Lacks_each (c ∷ text) = elim (Bool-cases (c == b'\n')) [
  | inl e ↦ rw e (tt, lines-Lacks_each text)
  | inr e ↦ rw e (push_byte-Lacks c (lines text) (ground arith) (lines-Lacks_each text))
]

drop_whole : (s : Bytes) → drop (length s) s ≡ []
drop_whole [] = refl
drop_whole (c ∷ s) = drop_whole s

name_offset_cases : (k n : ℕ) → (name_offset k n ≡ n) ⊎ (name_offset k n ≡ k)
unfolding name_offset
name_offset_cases k n = elim (Bool-cases (k == 0 || ltb n k)) [
  | inl e ↦ inl (rw e refl)
  | inr e ↦ inr (rw e refl)
]

fields_entry-dark :
    (text : Bytes) (fields : Fields)
    → StartsDark (name_of text fields)
    → StartsDark (fields_entry text fields).filename
unfolding fields_entry
fields_entry-dark text fields dark = elim (name_offset_cases fields.filename_offset (length text)) [
  | inl e ↦ rw (e, drop_whole text) tt
  | inr e ↦ rw e dark
]

fields_entry-IsMapping :
    (bufsize : ℕ) (text : Bytes) (fields : Fields)
    → All IsPlain text
    → parse_proc_maps_line text ≡ some fields
    → length (entry_line (fields_entry text fields)) < bufsize
    → IsMapping bufsize (fields_entry text fields)
fields_entry-IsMapping bufsize text fields plain e fits =
    let f = parse_proc_maps_line-Fits text fields e in
    let (_, dark) = parse_proc_maps_line-name text fields e in
    record {
      start = unfold fields_entry in f.start;
      end = unfold fields_entry in f.end;
      offset = unfold fields_entry in f.offset;
      inode = unfold fields_entry in f.inode;
      plain = unfold fields_entry in All-drop _ text plain;
      dark = fields_entry-dark text fields dark;
      fits = fits;
    }

abbrev FitsIn : ℕ → Entry → Type 0
FitsIn bufsize e = length (entry_line e) < bufsize

-- Every mapping that is listed on Linux from a text of maps can stand in a profile, if its line fits.
pub entries-IsMapping :
    (bufsize : ℕ) (ls : List Bytes)
    → All (Lacks b'\n') ls
    → All (λ e. length (entry_line e) < bufsize) (entries linux ls)
    → All (IsMapping bufsize) (entries linux ls)
unfolding entries line_entry parse_line
entries-IsMapping bufsize [] h f = tt
entries-IsMapping bufsize (line ∷ ls) (l, h) f =
    go (parse_proc_maps_line (until_nul line)) refl (entries-IsMapping bufsize ls h) f
  where
    go :
        (o : Option Fields)
        → parse_proc_maps_line (until_nul line) ≡ o
        → (All (FitsIn bufsize) (entries linux ls) → All (IsMapping bufsize) (entries linux ls))
        → let es : Option Entry = elim o [
          | none ↦ none
          | some fields ↦ some (fields_entry (until_nul line) fields)
        ] in
          All (FitsIn bufsize) (elim es [ none ↦ entries linux ls | some e ↦ e ∷ entries linux ls ])
          → All
              (IsMapping bufsize)
              (elim es [ none ↦ entries linux ls | some e ↦ e ∷ entries linux ls ])
    go none e ih f = ih f
    go (some fields) e ih (f, fs) = (
      fields_entry-IsMapping bufsize (until_nul line) fields (until_nul-IsPlain line l) e f,
      ih fs,
    )
