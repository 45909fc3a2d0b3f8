-- ===== src/Clib/Printf.antt =====
-- The conversions of `snprintf` that src/sysinfo.cpp uses: `%0<w>x`, `%-<w>d`.
use jointprof.Clib.Chars.{digit_char}
use jointprof.Common.{
  ℕ, zero, suc, ◌-◌, ◌/◌, ◌%◌, [], ◌∷◌, ◌++◌, ◌==◌, if◌then◌else◌, Bytes, length, replicate, ℤ, pos,
  negsuc,
}

-- The digits of `n` in front of `out`; at most `fuel` of them.
unfoldable pub write_digits : ℕ → ℕ → ℕ → Bytes → Bytes
write_digits base zero n out = out
write_digits base (suc fuel) n out =
    let rest = write_digits base fuel (n / base) (digit_char (n % base) ∷ out) in
    if n == 0 then out else rest

-- A number of 64 bits has at most 64 digits in any base.
unfoldable pub write_number : ℕ → ℕ → Bytes
write_number base n = if n == 0 then b'0' ∷ [] else write_digits base 64 n []

-- `%0<width>x`
unfoldable pub format_hex : ℕ → ℕ → Bytes
format_hex width n =
    let digits = write_number 16 n in replicate (width - length digits) b'0' ++ digits

-- `%d` of a signed number
unfoldable pub write_signed : ℤ → Bytes
write_signed (pos n) = write_number 10 n
write_signed (negsuc n) = b'-' ∷ write_number 10 (suc n)

-- `%-<width>d`
unfoldable pub format_left : ℕ → ℤ → Bytes
format_left width i =
    let digits = write_signed i in digits ++ replicate (width - length digits) b' '
