-- ===== src/Maps/Tests.antt =====
-- Runs of the line parser and of the printer at fixed inputs.
use jointprof.Clib.Chars.{is_space, digit_of, digit_char}
use jointprof.Clib.Strto.{
  skip_space, skip_sign, skip_prefix, scan_number, scan_digits, scan, clamp_signed, clamp_unsigned,
  strtoll, strtoull,
}
use jointprof.Clib.Printf.{write_number, format_hex, write_signed, format_left, write_digits}
use jointprof.Maps.Text.{
  extract_until_char, skip_while_whitespace, copy_string_until_char, string_to_integer_until_char,
  string_to_integer_until_char_with_check,
}
use jointprof.Clib.Scanf.{sscanf, scan_directives, expect, convert, take_word}
use jointprof.Maps.Platform.{cygwin, free_bsd, parse_line}
use jointprof.Maps.Line.{Fields, parse_proc_maps_line}
use jointprof.Maps.Line.Tail.{IsTail, name_of, parse_proc_maps_line-name}
use jointprof.Clib.Chars.{StartsDark}
use jointprof.Maps.Format.{permissions, line_text}
use jointprof.Common.{none, some, ◌≡◌, refl, codes, pos, Bytes}

cat_line :
    line_text 0x08048000 0x0804c000 (some (codes "r-xp")) 0 (pos 3793678) (codes "/bin/cat") 0x301
    ≡ codes "08048000-0804c000 r-xp 00000000 03:01 3793678     /bin/cat"
unfolding line_text permissions format_hex format_left write_number write_digits write_signed
    digit_char
cat_line = refl

cat_fields :
    parse_proc_maps_line (codes "08048000-0804c000 r-xp 00000000 03:01 3793678    /bin/cat")
    ≡ some (record {
      start = 0x08048000;
      end = 0x0804c000;
      flags = codes "r-xp";
      offset = 0;
      major = pos 3;
      minor = pos 1;
      inode = pos 3793678;
      filename_offset = 49;
    })
unfolding parse_proc_maps_line extract_until_char skip_while_whitespace copy_string_until_char
    string_to_integer_until_char string_to_integer_until_char_with_check is_space digit_of
    skip_space skip_sign skip_prefix scan_number scan_digits scan clamp_signed clamp_unsigned
    strtoll strtoull
cat_fields = refl

-- A line that ends at its inode, with no space behind it, is refused.
no_space_after_inode : parse_proc_maps_line (codes "08048000-0804c000 r-xp 00000000 03:01 0") ≡ none
unfolding parse_proc_maps_line extract_until_char skip_while_whitespace copy_string_until_char
    string_to_integer_until_char string_to_integer_until_char_with_check is_space digit_of
    skip_space skip_sign skip_prefix scan_number scan_digits scan clamp_signed clamp_unsigned
    strtoll strtoull
no_space_after_inode = refl

-- The line of FreeBSD that a comment of the source shows.
free_bsd_cat :
    parse_line free_bsd
      (codes "0x8048000 0x804a000 2 0 0xc104ce70 r-x 1 0 0x0 COW NC vnode /bin/cat")
    ≡ some (record {
      start = 0x8048000;
      end = 0x804a000;
      flags = codes "r-x";
      offset = 0;
      major = pos 0;
      minor = pos 0;
      inode = pos 0;
      filename_offset = 60;
    })
unfolding parse_line sscanf scan_directives expect convert scan skip_space skip_sign skip_prefix
    scan_number scan_digits digit_of is_space take_word clamp_unsigned
free_bsd_cat = refl

cygwin_cat :
    parse_line cygwin (codes "00400000-0040c000 r-xp 00000000 0301:0001 7 /bin/cat")
    ≡ some (record {
      start = 0x400000;
      end = 0x40c000;
      flags = codes "r-xp";
      offset = 0;
      major = pos 769;
      minor = pos 1;
      inode = pos 7;
      filename_offset = 44;
    })
unfolding parse_line sscanf scan_directives expect convert scan skip_space skip_sign skip_prefix
    scan_number scan_digits digit_of is_space take_word clamp_unsigned clamp_signed
cygwin_cat = refl

abbrev cat_values : Fields
cat_values = record {
  start = 0x08048000;
  end = 0x0804c000;
  flags = codes "r-xp";
  offset = 0;
  major = pos 3;
  minor = pos 1;
  inode = pos 3793678;
  filename_offset = 49;
}

abbrev cat_text : Bytes
cat_text = codes "08048000-0804c000 r-xp 00000000 03:01 3793678    /bin/cat"

parse_proc_maps_line-name_example :
    IsTail cat_text (name_of cat_text cat_values) × StartsDark (name_of cat_text cat_values)
parse_proc_maps_line-name_example = parse_proc_maps_line-name cat_text cat_values cat_fields
