-- ===== src/Maps/RoundTrip.antt =====
-- src/sysinfo.cpp, ParseProcMapsLine on the lines of FormatLine.
use jointprof.Clib.Chars.{is_space, StartsDark}
use jointprof.Clib.Numbers.{
  format_hex-StartsDark, write_signed-StartsDark, hex-Lacks, write_signed-Lacks, format_hex-ne-nil,
  strtoull-format_hex, strtoll-format_hex, strtoll-write_signed,
}
use jointprof.Clib.Printf.{format_hex, format_left, write_signed}
use jointprof.Maps.Format.{permissions, line_text}
use jointprof.Maps.Line.{not_at_end, parse_proc_maps_line}
use jointprof.Maps.Text.Laws.{
  Moves, spaces-Moves, dark-Moves, read_integer-append, copy_string-append,
}
use jointprof.Maps.Text.{
  int_type, int64_type, uint64_type, skip_while_whitespace, copy_string_until_char,
  string_to_integer_until_char_with_check as read_integer,
}
use jointprof.Common.{
  ℕ, zero, suc, ◌-◌, ◌/◌, ◌%◌, ◌^◌, ◌<◌, ◌≡◌, ◌≢◌, refl, sym, ap, ◌∙◌, false, Option, none, some,
  [], ◌∷◌, ◌++◌, append_assoc, bind_some, arith, Bytes, length, length-append, drop, drop_append,
  replicate, Lacks, ℤ, pos, IsInt64,
}

-- A number in front of a separator that is no space.
read_hex :
    (width n c : ℕ) (rest : Bytes)
    → n < 2 ^ 64
    → Lacks c (format_hex width n)
    → is_space c ≡ false
    → read_integer uint64_type (format_hex width n ++ (c ∷ rest)) 16 c ≡ some (n, rest)
read_hex width n c rest h lacks dark =
    read_integer-append uint64_type (format_hex width n) rest rest 16 c n lacks
      (strtoull-format_hex width n h) (dark-Moves c rest dark)

-- A number in front of a space, behind which something visible stands.
read_hex_space :
    (width n : ℕ) (rest : Bytes)
    → n < 2 ^ 64
    → StartsDark rest
    → read_integer uint64_type (format_hex width n ++ (b' ' ∷ rest)) 16 b' ' ≡ some (n, rest)
read_hex_space width n rest h dark =
    read_integer-append uint64_type (format_hex width n) rest rest 16 b' ' n (hex-Lacks width n).0
      (strtoull-format_hex width n h) (spaces-Moves 0 rest dark)

int-format_hex :
    (width n : ℕ) → n < 2 ^ 31 → int_type.string_to_integer (format_hex width n) 16 ≡ (pos n, [])
int-format_hex width n h = rw (strtoll-format_hex width n (omega arith)) (ground arith)

read_int :
    (width n c : ℕ) (rest next : Bytes)
    → n < 2 ^ 31
    → Lacks c (format_hex width n)
    → Moves c rest next
    → read_integer int_type (format_hex width n ++ (c ∷ rest)) 16 c ≡ some (pos n, next)
read_int width n c rest next h lacks moves =
    read_integer-append int_type (format_hex width n) rest next 16 c (pos n) lacks
      (int-format_hex width n h) moves

replicate-cons : (k c : ℕ) (s : Bytes) → replicate k c ++ (c ∷ s) ≡ c ∷ (replicate k c ++ s)
replicate-cons zero c s = refl
replicate-cons (suc k) c s = ap (λ t. c ∷ t) (replicate-cons k c s)

-- The inode, padded with spaces, in front of the file name.
read_inode :
    (i : ℤ) (name : Bytes)
    → IsInt64 i
    → StartsDark name
    → read_integer int64_type (format_left 11 i ++ (b' ' ∷ name)) 10 b' ' ≡ some (i, name)
unfolding format_left
read_inode i name h dark =
    let pad = 11 - length (write_signed i) in
    rw
      (
        append_assoc (write_signed i) (replicate pad b' ') (b' ' ∷ name),
        replicate-cons pad b' ' name,
      )
      (read_integer-append int64_type (write_signed i) (replicate pad b' ' ++ name) name 10 b' ' i
        (write_signed-Lacks i) (strtoll-write_signed i h) (spaces-Moves pad name dark))

permissions_lem :
    (flags : Option Bytes) → Lacks b' ' (permissions flags) × (length (permissions flags) ≡ 4)
unfolding permissions
permissions_lem none = omega arith
permissions_lem (some flags) = ground arith

pub permissions-StartsDark :
    (flags : Option Bytes) (rest : Bytes) → StartsDark (permissions flags ++ rest)
unfolding permissions is_space
permissions-StartsDark none rest = refl
permissions-StartsDark (some flags) rest = ground arith

copy_flags :
    (flags : Option Bytes) (rest : Bytes)
    → StartsDark rest
    → copy_string_until_char (permissions flags ++ (b' ' ∷ rest)) 5 b' '
      ≡ some (permissions flags, skip_while_whitespace (b' ' ∷ rest) b' ')
copy_flags flags rest h =
    copy_string-append (permissions flags) rest 5 b' ' (permissions_lem flags).0
      (omega (arith, (permissions_lem flags).1))

not_at_end-append : (s rest : Bytes) → s ≢ [] → not_at_end (s ++ rest) ≡ some (s ++ rest)
unfolding not_at_end
not_at_end-append [] rest h = absurd (h refl)
not_at_end-append (c ∷ s) rest h = refl

module _ (start end offset dev : ℕ) (flags : Option Bytes) (inode : ℤ) (filename : Bytes)
    (start_fits : start < 2 ^ 64) (end_fits : end < 2 ^ 64) (offset_fits : offset < 2 ^ 64)
    (dev_fits : dev < 2 ^ 39) (inode_fits : IsInt64 inode) (name_dark : StartsDark filename) where
  major : ℕ
  major = dev / 256 % 2 ^ 32

  tail_inode : Bytes
  tail_inode = format_left 11 inode ++ (b' ' ∷ filename)

  tail_minor : Bytes
  tail_minor = format_hex 2 (dev % 256) ++ (b' ' ∷ tail_inode)

  tail_offset : Bytes
  tail_offset = format_hex 8 offset ++ (b' ' ∷ (format_hex 2 major ++ (b':' ∷ tail_minor)))

  inode-StartsDark : StartsDark tail_inode
  unfolding tail_inode format_left
  inode-StartsDark = rw append_assoc (write_signed-StartsDark inode _)

  read_line :
      parse_proc_maps_line (line_text start end flags offset inode filename dev)
      ≡ some (record {
        start = start;
        end = end;
        flags = permissions flags;
        offset = offset;
        major = pos major;
        minor = pos (dev % 256);
        inode = inode;
        filename_offset =
            length (line_text start end flags offset inode filename dev) - length filename;
      })
  unfolding parse_proc_maps_line line_text major tail_inode tail_minor tail_offset is_space
  read_line =
      bind_some _ (not_at_end-append (format_hex 8 start) _ (format_hex-ne-nil 8 start))
      ∙ bind_some _ (read_hex 8 start b'-' _ start_fits (hex-Lacks 8 start).1 refl)
      ∙ bind_some _ (
          read_hex_space 8 end (permissions flags ++ (b' ' ∷ tail_offset)) end_fits
            (permissions-StartsDark flags (b' ' ∷ tail_offset)))
      ∙ bind_some _ (copy_flags flags tail_offset (format_hex-StartsDark 8 offset _))
      ∙ bind_some _ (spaces-Moves 0 tail_offset (format_hex-StartsDark 8 offset _))
      ∙ bind_some _ (
          read_hex_space 8 offset (format_hex 2 major ++ (b':' ∷ tail_minor)) offset_fits
            (format_hex-StartsDark 2 major _))
      ∙ bind_some _ (
          read_int 2 major b':' tail_minor tail_minor (omega arith) (hex-Lacks 2 major).2
            (dark-Moves b':' tail_minor refl))
      ∙ bind_some _ (
          read_int 2 (dev % 256) b' ' tail_inode tail_inode (omega arith)
            (hex-Lacks 2 (dev % 256)).0 (spaces-Moves 0 tail_inode inode-StartsDark))
      ∙ bind_some _ (read_inode inode filename inode_fits name_dark)

  ends_in_name :
      (front : Bytes) × (line_text start end flags offset inode filename dev ≡ front ++ filename)
  unfolding line_text
  ends_in_name = (
    format_hex 8 start
        ++ (b'-'
            ∷ (format_hex 8 end
                ++ (b' '
                    ∷ (permissions flags
                        ++ (b' '
                            ∷ (format_hex 8 offset
                                ++ (b' '
                                    ∷ (format_hex 2 (dev / 256 % 2 ^ 32)
                                        ++ (b':'
                                            ∷ (format_hex 2 (dev % 256)
                                                ++ (b' '
                                                    ∷ (format_left 11 inode
                                                        ++ (b' ' ∷ []))))))))))))),
    sym (simp append_assoc),
  )

  name_behind :
      let text = line_text start end flags offset inode filename dev in
      drop (length text - length filename) text ≡ filename
  name_behind =
      let (front, e) = ends_in_name in
      rw e (
        ap (λ k. drop k (front ++ filename)) (omega (arith, length-append front filename))
        ∙ drop_append front filename)

  -- The line parser reads back the values of a line that FormatLine writes, and the file name stands
  -- at the offset that it reports: for addresses and offsets of 64 bits, an int64 inode, device
  -- numbers whose major part fits an int, and a file name that does not begin with white space.
  pub parse-line_text :
      let text = line_text start end flags offset inode filename dev in
      (parse_proc_maps_line text
        ≡ some (record {
          start = start;
          end = end;
          flags = permissions flags;
          offset = offset;
          major = pos (dev / 256 % 2 ^ 32);
          minor = pos (dev % 256);
          inode = inode;
          filename_offset = length text - length filename;
        }))
      × (drop (length text - length filename) text ≡ filename)
  unfolding major
  parse-line_text = (read_line, name_behind)
