-- ===== src/Maps/Platform.antt =====
-- src/sysinfo.cpp, the line formats of the systems whose maps are a text: Linux, Cygwin and FreeBSD.
use jointprof.Clib.Scanf.{
  decimal, hexadecimal, word, Directive, literal, space, count, store, skip, Value, number, text,
  expect, convert, scan_directives, sscanf,
}
use jointprof.Clib.Strto.{
  clamp_unsigned, clamp_signed, skip_space, skip_sign, skip_prefix, scan_number, scan,
}
use jointprof.Maps.Line.{Fields, parse_proc_maps_line}
use jointprof.Common.{
  ℕ, ◌%◌, ◌^◌, Bool, Option, none, some, List, [], ◌∷◌, Bytes, length, codes, ℤ, pos, signed32, ◌≡◌,
  refl,
}

pub data Platform : Type 0 where
  linux cygwin free_bsd : Platform

-- The `%n` into filename_offset, which is 0 before.
abbrev pub counted : Option ℕ → ℕ
counted none = 0
counted (some n) = n

-- `%x` into an `int`
abbrev pub hex_int : Bool → ℕ → ℤ
hex_int minus n = signed32 (clamp_unsigned minus n % 2 ^ 32)

-- "%llx-%llx %4s %llx %x:%x %lld %n"
abbrev pub cygwin_format : List Directive
cygwin_format =
    store hexadecimal
    ∷ literal b'-'
    ∷ store hexadecimal
    ∷ space
    ∷ store (word 4)
    ∷ space
    ∷ store hexadecimal
    ∷ space
    ∷ store hexadecimal
    ∷ literal b':'
    ∷ store hexadecimal
    ∷ space
    ∷ store decimal
    ∷ space
    ∷ count
    ∷ []

-- `if (sscanf(…) != 7) continue;`: seven values, by their conversions.
cygwin_fields : List Value × Option ℕ → Option Fields
cygwin_fields
      (
        number ms start
            ∷ number me end
            ∷ text tmpflags
            ∷ number mo tmpoffset
            ∷ number ma major
            ∷ number mi minor
            ∷ number minus inode
            ∷ [],
        n,
      ) =
    some (record {
      start = clamp_unsigned ms start;
      end = clamp_unsigned me end;
      flags = codes "r-xp";
      offset = 0;
      major = hex_int ma major;
      minor = hex_int mi minor;
      inode = clamp_signed minus inode;
      filename_offset = counted n;
    })
cygwin_fields other = none

-- "0x%llx 0x%llx %*d %*d %*p %3s %*d %*d 0x%*x %*s %*s %*s %n"; `width` is as long as a word can be.
abbrev free_bsd_format : ℕ → List Directive
free_bsd_format width =
    literal b'0'
    ∷ literal b'x'
    ∷ store hexadecimal
    ∷ space
    ∷ literal b'0'
    ∷ literal b'x'
    ∷ store hexadecimal
    ∷ space
    ∷ skip decimal
    ∷ space
    ∷ skip decimal
    ∷ space
    ∷ skip hexadecimal
    ∷ space
    ∷ store (word 3)
    ∷ space
    ∷ skip decimal
    ∷ space
    ∷ skip decimal
    ∷ space
    ∷ literal b'0'
    ∷ literal b'x'
    ∷ skip hexadecimal
    ∷ space
    ∷ skip (word width)
    ∷ space
    ∷ skip (word width)
    ∷ space
    ∷ skip (word width)
    ∷ space
    ∷ count
    ∷ []

-- `if (sscanf(…) != 3) continue;`
free_bsd_fields : List Value × Option ℕ → Option Fields
free_bsd_fields (number ms start ∷ number me end ∷ text flags ∷ [], n) = some (record {
  start = clamp_unsigned ms start;
  end = clamp_unsigned me end;
  flags = flags;
  offset = 0;
  major = pos 0;
  minor = pos 0;
  inode = pos 0;
  filename_offset = counted n;
})
free_bsd_fields other = none

-- The line parser that NextExt has on each system.
unfoldable pub parse_line : Platform → Bytes → Option Fields
unfolding cygwin_fields free_bsd_fields
parse_line linux line = parse_proc_maps_line line
parse_line cygwin line = cygwin_fields (sscanf line cygwin_format)
parse_line free_bsd line = free_bsd_fields (sscanf line (free_bsd_format (length line)))

-- An empty line is no entry.
pub parse_line-nil : (os : Platform) → parse_line os [] ≡ none
unfolding parse_line parse_proc_maps_line sscanf scan_directives expect convert scan skip_space
    skip_sign skip_prefix scan_number
parse_line-nil linux = refl
parse_line-nil cygwin = refl
parse_line-nil free_bsd = refl
