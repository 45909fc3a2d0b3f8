-- ===== src/Maps/Line.antt =====
-- src/sysinfo.cpp, ParseProcMapsLine (on Linux).
pub mod Ranges
pub mod Tail
use jointprof.Maps.Text.{
  int_type, int64_type, uint64_type, copy_string_until_char, step_over,
  string_to_integer_until_char_with_check as read_integer,
}
use jointprof.Common.{ℕ, ◌-◌, Option, none, some, [], ◌∷◌, ◌>>=◌, Bytes, length, ℤ}

-- The values that a line sets through the pointers of ParseProcMapsLine.
pub record Fields : Type 0 where
  pub start : ℕ
  pub end : ℕ
  pub flags : Bytes
  pub offset : ℕ
  pub major : ℤ
  pub minor : ℤ
  pub inode : ℤ
  pub filename_offset : ℕ

-- `if (endptr == NULL || *endptr == '\0') return false;`
unfoldable pub not_at_end : Bytes → Option Bytes
not_at_end [] = none
not_at_end (c ∷ text) = some (c ∷ text)

-- ParseProcMapsLine: `none` for false.
unfoldable pub parse_proc_maps_line : Bytes → Option Fields
unfolding not_at_end step_over
parse_proc_maps_line text = do
  endptr ← not_at_end text
  (start, endptr) ← read_integer uint64_type endptr 16 b'-'
  (end, endptr) ← read_integer uint64_type endptr 16 b' '
  (flags, endptr) ← copy_string_until_char endptr 5 b' '
  endptr ← step_over (some endptr)
  (offset, endptr) ← read_integer uint64_type endptr 16 b' '
  (major, endptr) ← read_integer int_type endptr 16 b':'
  (minor, endptr) ← read_integer int_type endptr 16 b' '
  (inode, endptr) ← read_integer int64_type endptr 10 b' '
  some (record {
    start = start;
    end = end;
    flags = flags;
    offset = offset;
    major = major;
    minor = minor;
    inode = inode;
    filename_offset = length text - length endptr;
  })
