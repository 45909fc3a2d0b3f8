-- ===== src/Maps/Plain.antt =====
-- src/sysinfo.cpp, the characters of a line of FormatLine: none ends a line or a C string.
use jointprof.Clib.Chars.{digit_value, digit_of}
use jointprof.Clib.Numbers.{IsDigitOf, format_hex-IsDigitOf, write_number-IsDigitOf}
use jointprof.Clib.Printf.{format_hex, format_left, write_signed}
use jointprof.Maps.Format.{permissions, line_text}
use jointprof.Common.{
  ℕ, suc, ◌/◌, ◌%◌, ◌^◌, ◌≢◌, Option, none, some, ◌∷◌, ◌++◌, arith, Bytes, ℤ, pos, negsuc, Lacks,
  All, All-map, All-append, All-replicate,
}

-- A byte that is neither the NUL nor a newline.
abbrev pub IsPlain : ℕ → Type 0
IsPlain c = (c ≢ 0) × (c ≢ b'\n')

digit-IsPlain : (base c : ℕ) → IsDigitOf base c → IsPlain c
unfolding digit_of digit_value
digit-IsPlain base c (d, h) = ground arith

format_hex-IsPlain : (width n : ℕ) → All IsPlain (format_hex width n)
format_hex-IsPlain width n =
    All-map (digit-IsPlain 16) (format_hex width n) (format_hex-IsDigitOf width n)

write_signed-IsPlain : (i : ℤ) → All IsPlain (write_signed i)
unfolding write_signed
write_signed-IsPlain (pos n) =
    All-map (digit-IsPlain 10) _ (write_number-IsDigitOf 10 n (omega arith) (omega arith))
write_signed-IsPlain (negsuc n) = (
  omega arith,
  All-map (digit-IsPlain 10) _ (write_number-IsDigitOf 10 (suc n) (omega arith) (omega arith)),
)

format_left-IsPlain : (width : ℕ) (i : ℤ) → All IsPlain (format_left width i)
unfolding format_left
format_left-IsPlain width i =
    All-append IsPlain (write_signed i) _ (write_signed-IsPlain i)
      (All-replicate IsPlain _ b' ' (omega arith))

permissions-IsPlain : (flags : Option Bytes) → All IsPlain (permissions flags)
unfolding permissions
permissions-IsPlain none = omega arith
permissions-IsPlain (some flags) = ground arith

-- A plain text, a plain separator and a plain text.
join-IsPlain :
    (s : Bytes) (c : ℕ) (t : Bytes)
    → All IsPlain s
    → IsPlain c
    → All IsPlain t
    → All IsPlain (s ++ (c ∷ t))
join-IsPlain s c t hs hc ht = All-append IsPlain s (c ∷ t) hs (hc, ht)

pub line_text-IsPlain :
    (start end : ℕ) (flags : Option Bytes) (offset : ℕ) (inode : ℤ) (filename : Bytes) (dev : ℕ)
    → All IsPlain filename
    → All IsPlain (line_text start end flags offset inode filename dev)
unfolding line_text
line_text-IsPlain start end flags offset inode filename dev h =
    join-IsPlain _ b'-' _ (format_hex-IsPlain 8 start) (omega arith) (
      join-IsPlain _ b' ' _ (format_hex-IsPlain 8 end) (omega arith) (
        join-IsPlain _ b' ' _ (permissions-IsPlain flags) (omega arith) (
          join-IsPlain _ b' ' _ (format_hex-IsPlain 8 offset) (omega arith) (
            join-IsPlain _ b':' _ (format_hex-IsPlain 2 (dev / 256 % 2 ^ 32)) (omega arith) (
              join-IsPlain _ b' ' _ (format_hex-IsPlain 2 (dev % 256)) (omega arith)
                (join-IsPlain _ b' ' _ (format_left-IsPlain 11 inode) (omega arith) h))))))

pub plain-Lacks : (s : Bytes) → All IsPlain s → Lacks 0 s × Lacks b'\n' s
plain-Lacks s h = (All-map (λ c p. p.0) s h, All-map (λ c p. p.1) s h)
