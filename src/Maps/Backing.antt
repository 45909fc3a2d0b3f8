-- ===== src/Maps/Backing.antt =====
-- src/sysinfo.cpp, the page backing that NextExt takes from a line of /proc/<pid>/maps_backing.
pub mod Laws
pub mod Taken
use jointprof.Clib.Scanf.{
  Conversion, decimal, hexadecimal, Directive, literal, space, store, Value, number, text, sscanf,
}
use jointprof.Clib.Strto.{clamp_unsigned, clamp_signed}
use jointprof.Common.{
  ℕ, zero, suc, ◌+◌, ◌-◌, ◌%◌, ◌^◌, Option, none, some, List, [], ◌∷◌, ltb, leb, ◌==◌,
  if◌then◌else◌, ◌>>=◌, Bytes, get_or, ℤ, pos, negsuc,
}

-- The loop `while (--backing_ptr > stext_)`: the place of the second '(' from the end, where
-- `ptr` is backing_ptr before the decrement.
unfoldable pub find_second_paren : Bytes → ℕ → ℕ → ℕ → Option ℕ
find_second_paren buf stext zero paren_count = none
find_second_paren buf stext (suc ptr) paren_count =
    let count = if get_or buf ptr 0 == b'(' then paren_count + 1 else paren_count in
    let rest = find_second_paren buf stext ptr count in
    if ltb stext ptr
    then if get_or buf ptr 0 == b'(' then if leb 2 count then some ptr else rest else rest
    else none

-- The values that sscanf stored; `none` where it stopped before.
pub record Pages : Type 0 where
  pub file_mapping : Option ℕ
  pub file_pages : Option ℕ
  pub anon_mapping : Option ℕ
  pub anon_pages : Option ℕ

abbrev pub no_pages : Pages
no_pages = record { file_mapping = none; file_pages = none; anon_mapping = none; anon_pages = none }

-- The bit pattern of an int64 in a uint64.
to_uint64 : ℤ → ℕ
to_uint64 (pos n) = n % 2 ^ 64
to_uint64 (negsuc n) = 2 ^ 64 - 1 - n % 2 ^ 64

-- `%llx`, and `%lld`, into a uint64
hex_value : Value → ℕ
hex_value (number minus n) = clamp_unsigned minus n
hex_value (text s) = 0

decimal_value : Value → ℕ
unfolding to_uint64
decimal_value (number minus n) = to_uint64 (clamp_signed minus n)
decimal_value (text s) = 0

-- "F %llx %lld) (A %llx %lld)"
abbrev pages_format : List Directive
pages_format =
    literal b'F'
    ∷ space
    ∷ store hexadecimal
    ∷ space
    ∷ store decimal
    ∷ literal b')'
    ∷ space
    ∷ literal b'('
    ∷ literal b'A'
    ∷ space
    ∷ store hexadecimal
    ∷ space
    ∷ store decimal
    ∷ literal b')'
    ∷ []

stored_pages : List Value → Pages
unfolding hex_value decimal_value
stored_pages [] = no_pages
stored_pages (fm ∷ []) = record no_pages { file_mapping = some (hex_value fm) }
stored_pages (fm ∷ fp ∷ []) = record no_pages {
  file_mapping = some (hex_value fm);
  file_pages = some (decimal_value fp);
}
stored_pages (fm ∷ fp ∷ am ∷ []) = record no_pages {
  file_mapping = some (hex_value fm);
  file_pages = some (decimal_value fp);
  anon_mapping = some (hex_value am);
}
stored_pages (fm ∷ fp ∷ am ∷ an ∷ more) = record {
  file_mapping = some (hex_value fm);
  file_pages = some (decimal_value fp);
  anon_mapping = some (hex_value am);
  anon_pages = some (decimal_value an);
}

-- `sscanf(backing_ptr+1, "F %llx %lld) (A %llx %lld)", …)`
unfoldable pub scan_pages : Bytes → Pages
unfolding stored_pages
scan_pages line = stored_pages (sscanf line pages_format).0
