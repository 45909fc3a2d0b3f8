-- ===== src/Maps/Iterator.antt =====
-- src/sysinfo.h and src/sysinfo.cpp, ProcMapsIterator where the maps are a text: on
-- Linux, Cygwin and FreeBSD. The pointers into the buffer are
-- indices from ibuf_; a write through NULL is a fault.
pub mod Fill
pub mod Shift
pub mod Advance
pub mod Next
pub mod Refine
pub mod Pieces
use Prim.Native.Nat.{bit_or}
use jointprof.Maps.Backing.{Pages, no_pages, find_second_paren, scan_pages}
use jointprof.Maps.File.{File, read_no_intr}
use jointprof.Maps.Line.{Fields}
use jointprof.Maps.Platform.{Platform, parse_line}
use jointprof.Maps.Memory.{slice, store, memchr, c_string}
use jointprof.Common.{
  ℕ, zero, suc, ◌+◌, ◌-◌, ◌*◌, ◌%◌, ◌^◌, Bool, true, false, not, ◌&&◌, ◌||◌, Option, none, some,
  List, [], ◌∷◌, ltb, leb, ◌==◌, if◌then◌else◌, ◌>>=◌, Bytes, length, set, drop, replicate, ℤ, pos,
  negsuc,
}

-- The fields of ProcMapsIterator; ibuf_ is the contents of the buffer.
pub record Iterator : Type 0 where
  pub ibuf : Bytes
  pub stext : ℕ
  pub etext : ℕ
  pub nextline : ℕ
  pub ebuf : ℕ
  pub fd : File
  pub flags : Bytes
  pub using_maps_backing : Bool

-- What NextExt hands out of an entry; the file name is a pointer into the buffer.
pub record Entry : Type 0 where
  pub start : ℕ
  pub end : ℕ
  pub flags : Bytes
  pub offset : ℕ
  pub inode : ℤ
  pub filename : Bytes
  pub dev : ℕ
  pub pages : Pages

-- Valid
abbrev pub valid : Iterator → Bool
valid it = it.fd.is_open

-- CurrentLine
unfoldable pub current_line : Iterator → Bytes
current_line it = c_string it.ibuf it.stext

-- What the loop that fills the buffer leaves: the buffer, etext_, nread (`none` for -1), the file.
abbrev pub Fill : Type 0
Fill = Bytes × ℕ × Option ℕ × File

-- `if (nread > 0) etext_ += nread; else break;`, where `again` is the rest of the loop.
unfoldable pub after_read :
    (Bytes → ℕ → Option ℕ → File → Fill) → Bytes → ℕ → Option Bytes → File → Fill
after_read again buf etext none fd = (buf, etext, none, fd)
after_read again buf etext (some []) fd = (buf, etext, some 0, fd)
after_read again buf etext (some (c ∷ more)) fd =
    again (store buf etext (c ∷ more)) (etext + length (c ∷ more)) (some (length (c ∷ more))) fd

-- The loop `while (etext_ < ebuf_)`; each round but the last reads at least one byte, so
-- `ebuf - etext` rounds are enough.
unfoldable pub fill : ℕ → ℕ → Bytes → ℕ → Option ℕ → File → Fill
unfolding after_read
fill zero ebuf buf etext nread fd = (buf, etext, nread, fd)
fill (suc rounds) ebuf buf etext nread fd =
    let (bytes, fd') = read_no_intr fd (ebuf - etext) in
    let more = after_read (fill rounds ebuf) buf etext bytes fd' in
    if ltb etext ebuf then more else (buf, etext, nread, fd)

-- `etext_ != ebuf_ && nread == 0`
at_eof : ℕ → ℕ → Option ℕ → Bool
at_eof etext ebuf none = false
at_eof etext ebuf (some n) = not (etext == ebuf) && n == 0

-- "Zero out remaining characters in buffer at EOF", then the sentinel newline at etext_.
unfoldable pub end_fill : ℕ → Fill → Bytes
unfolding at_eof
end_fill ebuf (buf, etext, nread, fd) =
    let cleared =
      if at_eof etext ebuf nread then store buf etext (replicate (ebuf - etext) 0) else buf in
    set cleared etext b'\n'

-- The body of `if (!nextline_)`: shift the text to the front, fill the buffer, put a sentinel
-- newline behind the text. (Its second memchr stands in `advance` below.)
unfoldable pub shift_and_fill : Iterator → Iterator
unfolding end_fill
shift_and_fill it =
    let count = it.etext - it.stext in
    let moved = store it.ibuf 0 (slice it.ibuf it.stext it.etext) in
    let filled = fill (it.ebuf - count) it.ebuf moved count (some 0) it.fd in
    record it { ibuf = end_fill it.ebuf filled; stext = 0; etext = filled.1; fd = filled.3 }

-- `*nextline_ = 0; nextline_ += ((nextline_ < etext_)? 1 : 0);`
unfoldable pub end_line : Iterator → ℕ → Iterator
end_line it nextline = record it {
  ibuf = set it.ibuf nextline 0;
  nextline = nextline + (if ltb nextline it.etext then 1 else 0);
}

-- From the top of the loop of NextExt to "stext_ now points at a nul-terminated line".
unfoldable pub advance : Iterator → Option Iterator
advance it =
    let at_line = record it { stext = it.nextline } in
    elim (memchr it.ibuf it.nextline b'\n' (it.etext - it.nextline)) [
      | some nextline ↦ some (end_line at_line nextline)
      | none ↦
          let full = shift_and_fill at_line in
          elim (memchr full.ibuf full.stext b'\n' (full.etext + 1 - full.stext)) [
            | some nextline ↦ some (end_line full nextline)
            | none ↦ none
          ]
    ]

-- The bits of an `int`.
int_bits : ℤ → ℕ
int_bits (pos n) = n % 2 ^ 32
int_bits (negsuc n) = 2 ^ 32 - 1 - n % 2 ^ 32

-- `minor | (major << 8)` in `int`, as a dev_t.
unfoldable pub make_dev : ℤ → ℤ → ℕ
unfolding int_bits
make_dev major minor =
    let bits = bit_or (int_bits minor) (int_bits major * 256 % 2 ^ 32) in
    if ltb bits (2 ^ 31) then bits else bits + 2 ^ 64 - 2 ^ 32

-- `if (filename_offset == 0 || filename_offset > stext_length) filename_offset = stext_length;`
unfoldable pub name_offset : ℕ → ℕ → ℕ
name_offset filename_offset stext_length =
    if filename_offset == 0 || ltb stext_length filename_offset
    then stext_length
    else filename_offset

-- The block `if (using_maps_backing_)`: the buffer with the file name ended at the second '(', and
-- the page counts.
unfoldable pub take_backing : Iterator → ℕ → Bytes × Pages
take_backing it filename =
    let backing_ptr = filename + length (c_string it.ibuf filename) in
    if it.using_maps_backing
    then elim (find_second_paren it.ibuf it.stext backing_ptr 0) [
      | none ↦ (it.ibuf, no_pages)
      | some ptr ↦ (set it.ibuf (ptr - 1) 0, scan_pages (c_string it.ibuf (ptr + 1)))
    ]
    else (it.ibuf, no_pages)

-- What follows a line that parses: the values handed out, and the iterator.
unfoldable pub found : Iterator → Fields → Entry × Iterator
unfolding take_backing make_dev name_offset
found it fields =
    let filename =
      it.stext + name_offset fields.filename_offset (length (c_string it.ibuf it.stext)) in
    let (buf, pages) = take_backing it filename in
    (
      record {
        start = fields.start;
        end = fields.end;
        flags = fields.flags;
        offset = fields.offset;
        inode = fields.inode;
        filename = c_string buf filename;
        dev = make_dev fields.major fields.minor;
        pages = pages;
      },
      record it { ibuf = buf; flags = fields.flags },
    )

-- What a call of Next returns: true with an entry, or false. The other two are a write through NULL
-- and the end of the fuel.
pub data Outcome : Type 0 where
  entry : Entry → Iterator → Outcome
  finished : Iterator → Outcome
  fault : Outcome
  no_fuel : Outcome

-- NextExt: the loop `do … while (etext_ > ibuf_)`. A line that does not parse is passed over.
unfoldable pub next_ext : Platform → ℕ → Iterator → Outcome
next_ext os zero it = no_fuel
next_ext os (suc fuel) it = elim (advance it) [
  | none ↦ fault
  | some at_line ↦
      let again = next_ext os fuel at_line in
      elim (parse_line os (c_string at_line.ibuf at_line.stext)) [
        | some fields ↦ let (e, done) = found at_line fields in entry e done
        | none ↦ if ltb 0 at_line.etext then again else finished at_line
      ]
]

-- Next is NextExt with no interest in the page counts and the device.
abbrev pub next : Platform → ℕ → Iterator → Outcome
next = next_ext
