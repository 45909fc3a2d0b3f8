-- ===== src/Profiler/Trailer/Listing.antt =====
-- src/profiler.cpp and src/sysinfo.cpp, the text of the maps in a profile, read again.
use jointprof.Clib.Printf.{format_hex, format_left}
use jointprof.Maps.Backing.{no_pages}
use jointprof.Maps.Entries.{fields_entry, line_entry, entries}
use jointprof.Maps.Format.{permissions, line_text}
use jointprof.Maps.Iterator.{Entry, make_dev, name_offset}
use jointprof.Maps.Line.{Fields, parse_proc_maps_line}
use jointprof.Maps.Memory.{until_nul}
use jointprof.Maps.Plain.{IsPlain, line_text-IsPlain, plain-Lacks}
use jointprof.Maps.Platform.{linux, parse_line}
use jointprof.Maps.RoundTrip.{parse-line_text}
use jointprof.Maps.Stream.{lines, lines-append}
use jointprof.Clib.Chars.{StartsDark}
use jointprof.Profiler.Trailer.{entry_line, entries_text}
use jointprof.Common.{
  ℕ, ◌-◌, ◌≤◌, ◌/◌, ◌%◌, ◌<◌, ◌^◌, length-append, ==-ne, ◌≡◌, refl, ap, ◌∙◌, some, List, [], ◌∷◌,
  ◌++◌, append_assoc, map, Bytes, length, drop, leb, All, Lacks, IsInt64, pos, arith, false,
}

-- A mapping that can stand in a profile: its numbers fit, and its name has no newline and no NUL and does not
-- begin with white space; its line is shorter than the line buffer.
pub record IsMapping (bufsize : ℕ) (e : Entry) : Type 0 where
  pub start : e.start < 2 ^ 64
  pub end : e.end < 2 ^ 64
  pub offset : e.offset < 2 ^ 64
  pub inode : IsInt64 e.inode
  pub plain : All IsPlain e.filename
  pub dark : StartsDark e.filename
  pub fits : length (entry_line e) < bufsize

-- What a profile keeps of a mapping: the flags in the form of FormatLine, and no device.
abbrev pub kept : Entry → Entry
kept e = record e { flags = permissions (some e.flags); dev = 0; pages = no_pages }

until_nul-Lacks : (line : Bytes) → Lacks 0 line → until_nul line ≡ line
unfolding until_nul
until_nul-Lacks [] h = refl
until_nul-Lacks (c ∷ line) (ne, h) = rw (==-ne c 0 ne, until_nul-Lacks line h)

-- The text of an entry without its newline.
abbrev text_of : Entry → Bytes
text_of e = line_text e.start e.end (some e.flags) e.offset e.inode e.filename 0

join_longer :
    (s : Bytes) (c : ℕ) (t f : Bytes) → length f ≤ length t → length f ≤ length (s ++ (c ∷ t))
join_longer s c t f h = omega (arith, length-append s (c ∷ t))

-- The text of an entry behind its start.
abbrev behind_start : Entry → Bytes
behind_start e =
    let parts = format_left 11 e.inode ++ (b' ' ∷ e.filename) in
    let parts = format_hex 2 (0 % 256) ++ (b' ' ∷ parts) in
    let parts = format_hex 2 (0 / 256 % 2 ^ 32) ++ (b':' ∷ parts) in
    let parts = format_hex 8 e.offset ++ (b' ' ∷ parts) in
    let parts = permissions (some e.flags) ++ (b' ' ∷ parts) in format_hex 8 e.end ++ (b' ' ∷ parts)

name_shorter : (e : Entry) → length e.filename < length (text_of e)
unfolding line_text
name_shorter e =
    let inside : length e.filename ≤ length (behind_start e) = join_longer _ _ _ _ (
      join_longer _ _ _ _ (
        join_longer _ _ _ _
          (join_longer _ _ _ _ (join_longer _ _ _ _ (join_longer _ _ _ _ (omega arith)))))) in
    omega (arith, length-append (format_hex 8 e.start) (b'-' ∷ behind_start e), inside)

-- The offset of a name that stands in its line is kept.
name_offset_inside : (k n : ℕ) → 0 < k → k ≤ n → name_offset k n ≡ k
unfolding name_offset
name_offset_inside k n h h' = ground arith

make_dev_zero : make_dev (pos 0) (pos 0) ≡ 0
unfolding make_dev
make_dev_zero = refl

-- The fields that ParseProcMapsLine reads from the text of an entry.
abbrev fields_of : Entry → Fields
fields_of e = record {
  start = e.start;
  end = e.end;
  flags = permissions (some e.flags);
  offset = e.offset;
  major = pos 0;
  minor = pos 0;
  inode = e.inode;
  filename_offset = length (text_of e) - length e.filename;
}

fields_entry-kept :
    (e : Entry)
    → drop (length (text_of e) - length e.filename) (text_of e) ≡ e.filename
    → fields_entry (text_of e) (fields_of e) ≡ kept e
unfolding fields_entry
fields_entry-kept e name =
    let inside =
      name_offset_inside (length (text_of e) - length e.filename) (length (text_of e))
        (omega (arith, name_shorter e)) (omega arith) in
    rw (inside, make_dev_zero) (ap (λ f. record (kept e) { filename = f }) name)

line_entry_parsed :
    (line : Bytes) (fields : Fields)
    → parse_proc_maps_line (until_nul line) ≡ some fields
    → line_entry linux line ≡ some (fields_entry (until_nul line) fields)
unfolding line_entry parse_line
line_entry_parsed line fields e = rw (e, line_entry)

line_entry-text :
    (bufsize : ℕ) (e : Entry) → IsMapping bufsize e → line_entry linux (text_of e) ≡ some (kept e)
line_entry-text bufsize e m =
    let (read, name) =
      parse-line_text e.start e.end e.offset 0 (some e.flags) e.inode e.filename m.start m.end
        m.offset (omega arith) m.inode m.dark in
    let plain =
      (plain-Lacks (text_of e)
        (line_text-IsPlain e.start e.end (some e.flags) e.offset e.inode e.filename 0 m.plain)).0 in
    let whole = until_nul-Lacks (text_of e) plain in
    line_entry_parsed (text_of e) (fields_of e) (ap parse_proc_maps_line whole ∙ read)
    ∙ ap (λ t. some (fields_entry t (fields_of e))) whole
    ∙ ap some (fields_entry-kept e name)

-- A reader of the maps in a profile finds every mapping that write_trailer was given, in order, with
-- the permissions of its flags and the device zero, if for every mapping the addresses and the offset are
-- below 2 ^ 64, the inode is an int64, the name has no newline and no NUL and does not begin with
-- white space, and the line is shorter than the line buffer.
pub entries-entries_text :
    (bufsize : ℕ) (es : List Entry)
    → All (IsMapping bufsize) es
    → entries linux (lines (entries_text bufsize es)) ≡ map kept es
unfolding entries_text lines entries
entries-entries_text bufsize [] h = refl
entries-entries_text bufsize (e ∷ es) (m, h) =
    let plain =
      (plain-Lacks (text_of e)
        (line_text-IsPlain e.start e.end (some e.flags) e.offset e.inode e.filename 0 m.plain)).1 in
    let fits : leb bufsize (length (entry_line e)) ≡ false = ground (arith, m.fits) in
    let rest = entries_text bufsize es in
    let cut : lines (entry_line e ++ rest) ≡ text_of e ∷ lines rest =
      ap lines (append_assoc (text_of e) (b'\n' ∷ []) rest) ∙ lines-append (text_of e) rest plain in
    rw fits (
      ap (entries linux) cut
      ∙ rw (line_entry-text bufsize e m, entries)
          (ap (λ t. kept e ∷ t) (entries-entries_text bufsize es h)))
