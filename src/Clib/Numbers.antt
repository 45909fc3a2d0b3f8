-- ===== src/Clib/Numbers.antt =====
-- What `strtol` and its relatives read of the numbers that `printf` writes.
pub mod Front
use native.Mathlib.Nat.{pow-suc, div-add-mod', mod-lt}
use mathlib.Core.List.{cons-ne-nil}
use jointprof.Clib.Chars.{
  is_space, StartsDark, digit_value, digit_of, digit_char, digit_of-digit_char,
}
use jointprof.Clib.Strto.{
  strtoull, strtoll, clamp_unsigned, clamp_signed, skip_space, scan_digits, scan_number,
  skip_prefix, skip_sign, scan,
}
use jointprof.Clib.Printf.{write_digits, write_number, format_hex, write_signed}
use jointprof.Common.{
  ℕ, zero, suc, ◌+◌, ◌-◌, ◌*◌, ◌/◌, ◌%◌, ◌^◌, ◌≤◌, ◌<◌, ◌≡◌, ◌≢◌, refl, sym, ◌∙◌, ap, true, false,
  some, [], ◌∷◌, ◌++◌, arith, Bool-cases, inl, inr, ◌==◌, Bytes, length, replicate, All, All-append,
  All-replicate, All-map, Lacks, ℤ, pos, negsuc, IsInt64, is_negative, magnitude,
}

div-lt : (b n m : ℕ) → 2 ≤ b → n < 2 * m → n / b < m
div-lt b n m h k = grind arith

scan_digits-cons :
    (base n c d : ℕ) (s : Bytes)
    → digit_of base c ≡ some d
    → scan_digits base n (c ∷ s) ≡ scan_digits base (n * base + d) s
unfolding scan_digits
scan_digits-cons base n c d s h = rw (h, scan_digits)

scan_digits-write_digits :
    (base fuel n : ℕ) (out : Bytes)
    → 2 ≤ base
    → base ≤ 16
    → n < 2 ^ fuel
    → scan_digits base 0 (write_digits base fuel n out) ≡ scan_digits base n out
unfolding write_digits
scan_digits-write_digits base zero n out lo hi h = ap (λ k. scan_digits base k out) (omega arith)
scan_digits-write_digits base (suc fuel) n out lo hi h = elim (Bool-cases (n == 0)) [
  | inl done ↦ rw done (ap (λ k. scan_digits base k out) (ground arith))
  | inr more ↦
      let small : n % base < base = mod-lt n (omega arith) in
      rw more (
        scan_digits-write_digits base fuel (n / base) (digit_char (n % base) ∷ out) lo hi
          (div-lt base n (2 ^ fuel) lo (omega (arith, pow-suc 2 fuel)))
        ∙ scan_digits-cons base (n / base) _ (n % base) out
            (digit_of-digit_char base (n % base) small (omega arith))
        ∙ ap (λ k. scan_digits base k out) (div-add-mod' n base))
]

-- A digit of the base.
abbrev pub IsDigitOf : ℕ → ℕ → Type 0
IsDigitOf base c = (d : ℕ) × (digit_of base c ≡ some d)

pub write_digits-IsDigitOf :
    (base fuel n : ℕ) (out : Bytes)
    → 2 ≤ base
    → base ≤ 16
    → All (IsDigitOf base) out
    → All (IsDigitOf base) (write_digits base fuel n out)
unfolding write_digits
write_digits-IsDigitOf base zero n out lo hi h = h
write_digits-IsDigitOf base (suc fuel) n out lo hi h = elim (Bool-cases (n == 0)) [
  | inl done ↦ rw done h
  | inr more ↦
      let small : n % base < base = mod-lt n (omega arith) in
      rw more (
        write_digits-IsDigitOf base fuel (n / base) (digit_char (n % base) ∷ out) lo hi
          ((n % base, digit_of-digit_char base (n % base) small (omega arith)), h))
]

write_digits-ne-nil : (base fuel n : ℕ) (out : Bytes) → out ≢ [] → write_digits base fuel n out ≢ []
unfolding write_digits
write_digits-ne-nil base zero n out h = h
write_digits-ne-nil base (suc fuel) n out h = elim (Bool-cases (n == 0)) [
  | inl done ↦ rw done h
  | inr more ↦
      rw more (write_digits-ne-nil base fuel (n / base) (digit_char (n % base) ∷ out) (λ e. cc))
]

write_digits_pos : (base fuel n : ℕ) → n == 0 ≡ false → write_digits base (suc fuel) n [] ≢ []
unfolding write_digits
write_digits_pos base fuel n h =
    rw h (write_digits-ne-nil base fuel (n / base) _ (cons-ne-nil (digit_char (n % base)) []))

zero_digit : (base : ℕ) → 2 ≤ base → digit_of base b'0' ≡ some 0
unfolding digit_of digit_value
zero_digit base h = ground arith

pub write_number-IsDigitOf :
    (base n : ℕ) → 2 ≤ base → base ≤ 16 → All (IsDigitOf base) (write_number base n)
unfolding write_number
write_number-IsDigitOf base n lo hi = elim (Bool-cases (n == 0)) [
  | inl e ↦ rw e ((0, zero_digit base lo), tt)
  | inr e ↦ rw e (write_digits-IsDigitOf base 64 n [] lo hi tt)
]

pub write_number-ne-nil : (base n : ℕ) → write_number base n ≢ []
unfolding write_number
write_number-ne-nil base n = elim (Bool-cases (n == 0)) [
  | inl e ↦ rw e (cons-ne-nil b'0' [])
  | inr e ↦ rw e (write_digits_pos base 63 n e)
]

pub scan_digits-write_number :
    (base n : ℕ)
    → 2 ≤ base
    → base ≤ 16
    → n < 2 ^ 64
    → scan_digits base 0 (write_number base n) ≡ (n, [])
unfolding write_number
scan_digits-write_number base n lo hi h = elim (Bool-cases (n == 0)) [
  | inl e ↦ rw e (
      scan_digits-cons base 0 b'0' 0 [] (zero_digit base lo)
      ∙ unfold scan_digits in ap (λ (k : ℕ). (k, [])) (ground arith))
  | inr e ↦ rw e (scan_digits-write_digits base 64 n [] lo hi h ∙ unfold scan_digits in refl)
]

-- Leading zeros do not change what is read.
pub scan_digits-zeros :
    (base k : ℕ) (s : Bytes)
    → 2 ≤ base
    → scan_digits base 0 (replicate k b'0' ++ s) ≡ scan_digits base 0 s
scan_digits-zeros base zero s lo = refl
scan_digits-zeros base (suc k) s lo =
    scan_digits-cons base 0 b'0' 0 _ (zero_digit base lo)
    ∙ ap (λ d. scan_digits base d (replicate k b'0' ++ s)) (omega arith)
    ∙ scan_digits-zeros base k s lo

digit_not_sign :
    (base c d : ℕ)
    → base ≤ 16
    → digit_of base c ≡ some d
    → (is_space c ≡ false)
      × (c == b'-' ≡ false)
      × (c == b'+' ≡ false)
      × (c == b'x' ≡ false)
      × (c == b'X' ≡ false)
unfolding digit_of digit_value is_space
digit_not_sign base c d hi h = ground arith

skip_space-digit :
    (base c : ℕ) (s : Bytes) → base ≤ 16 → IsDigitOf base c → skip_space (c ∷ s) ≡ c ∷ s
unfolding skip_space
skip_space-digit base c s hi (d, h) = rw ((digit_not_sign base c d hi h).0)

skip_sign-digit :
    (base c : ℕ) (s : Bytes) → base ≤ 16 → IsDigitOf base c → skip_sign (c ∷ s) ≡ (false, c ∷ s)
unfolding skip_sign
skip_sign-digit base c s hi (d, h) = ground (arith, digit_not_sign base c d hi h)

skip_prefix-digits :
    (base : ℕ) (s : Bytes) → base ≤ 16 → All (IsDigitOf base) s → skip_prefix base s ≡ s
unfolding skip_prefix
skip_prefix-digits base (a ∷ b ∷ c ∷ s) hi (_, ((d, h), _)) =
    ground (arith, digit_not_sign base b d hi h)
skip_prefix-digits base (a ∷ b ∷ []) hi h = refl
skip_prefix-digits base (a ∷ []) hi h = refl
skip_prefix-digits base [] hi h = refl

scan_number-digit :
    (base c : ℕ) (s : Bytes)
    → IsDigitOf base c
    → scan_number base (c ∷ s) ≡ some (scan_digits base 0 (c ∷ s))
unfolding scan_number
scan_number-digit base c s (d, h) =
    rw (h, scan_number)
      (ap some
        (ap (λ k. scan_digits base k s) (omega arith) ∙ sym (scan_digits-cons base 0 c d s h)))

-- A text of digits only is converted whole, with no sign.
pub scan-digits :
    (base n : ℕ) (s : Bytes)
    → base ≤ 16
    → s ≢ []
    → All (IsDigitOf base) s
    → scan_digits base 0 s ≡ (n, [])
    → scan base s ≡ some (false, n, [])
unfolding scan
scan-digits base n [] hi ne h e = absurd (ne refl)
scan-digits base n (c ∷ s) hi ne h e =
    rw
      (
        skip_space-digit base c s hi h.0,
        skip_sign-digit base c s hi h.0,
        skip_prefix-digits base (c ∷ s) hi h,
        scan_number-digit base c s h.0,
        e,
        scan,
      )
      (rw (skip_space-digit base c s hi h.0, skip_sign-digit base c s hi h.0))

scan-minus :
    (base n : ℕ) (s : Bytes)
    → base ≤ 16
    → s ≢ []
    → All (IsDigitOf base) s
    → scan_digits base 0 s ≡ (n, [])
    → scan base (b'-' ∷ s) ≡ some (true, n, [])
unfolding scan skip_space skip_sign is_space scan_number skip_prefix
scan-minus base n [] hi ne h e = absurd (ne refl)
scan-minus base n (c ∷ s) hi ne h e =
    rw (skip_prefix-digits base (c ∷ s) hi h, scan_number-digit base c s h.0, e, scan)

pub format_hex-IsDigitOf : (width n : ℕ) → All (IsDigitOf 16) (format_hex width n)
unfolding format_hex
format_hex-IsDigitOf width n =
    All-append (IsDigitOf 16) (replicate (width - length (write_number 16 n)) b'0')
      (write_number 16 n) (All-replicate (IsDigitOf 16) _ b'0' (0, zero_digit 16 (omega arith)))
      (write_number-IsDigitOf 16 n (omega arith) (omega arith))

append-ne-nil : (k : ℕ) (s : Bytes) → s ≢ [] → replicate k b'0' ++ s ≢ []
append-ne-nil zero s h = h
append-ne-nil (suc k) s h = cons-ne-nil b'0' _

pub format_hex-ne-nil : (width n : ℕ) → format_hex width n ≢ []
unfolding format_hex
format_hex-ne-nil width n = append-ne-nil _ (write_number 16 n) (write_number-ne-nil 16 n)

pub scan_digits-format_hex :
    (width n : ℕ) → n < 2 ^ 64 → scan_digits 16 0 (format_hex width n) ≡ (n, [])
unfolding format_hex
scan_digits-format_hex width n h =
    scan_digits-zeros 16 (width - length (write_number 16 n)) (write_number 16 n) (omega arith)
    ∙ scan_digits-write_number 16 n (omega arith) (omega arith) h

-- What `%0<width>x` writes of a 64-bit number is read back.
pub scan-format_hex :
    (width n : ℕ) → n < 2 ^ 64 → scan 16 (format_hex width n) ≡ some (false, n, [])
scan-format_hex width n h =
    scan-digits 16 n (format_hex width n) (omega arith) (format_hex-ne-nil width n)
      (format_hex-IsDigitOf width n) (scan_digits-format_hex width n h)

-- What `%d` writes of an int64 is read back.
pub scan-write_signed :
    (i : ℤ) → IsInt64 i → scan 10 (write_signed i) ≡ some (is_negative i, magnitude i, [])
unfolding write_signed
scan-write_signed (pos n) h =
    scan-digits 10 n _ (omega arith) (write_number-ne-nil 10 n)
      (write_number-IsDigitOf 10 n (omega arith) (omega arith))
      (scan_digits-write_number 10 n (omega arith) (omega arith) (omega arith))
scan-write_signed (negsuc n) h =
    scan-minus 10 (suc n) _ (omega arith) (write_number-ne-nil 10 (suc n))
      (write_number-IsDigitOf 10 (suc n) (omega arith) (omega arith))
      (scan_digits-write_number 10 (suc n) (omega arith) (omega arith) (omega arith))

-- `strtoull`, `strtoll` and the narrowing of `strtol` on what was written.
pub strtoull-format_hex : (width n : ℕ) → n < 2 ^ 64 → strtoull (format_hex width n) 16 ≡ (n, [])
unfolding strtoull clamp_unsigned
strtoull-format_hex width n h = rw (scan-format_hex width n h, strtoull) (ground arith)

pub strtoll-format_hex : (width n : ℕ) → n < 2 ^ 63 → strtoll (format_hex width n) 16 ≡ (pos n, [])
unfolding strtoll clamp_signed
strtoll-format_hex width n h = rw (scan-format_hex width n (omega arith), strtoll) (ground arith)

pub clamp_signed-parts : (i : ℤ) → IsInt64 i → clamp_signed (is_negative i) (magnitude i) ≡ i
unfolding clamp_signed
clamp_signed-parts (pos n) h = ground arith
clamp_signed-parts (negsuc n) h = ground arith

pub strtoll-write_signed : (i : ℤ) → IsInt64 i → strtoll (write_signed i) 10 ≡ (i, [])
unfolding strtoll
strtoll-write_signed i h =
    rw (scan-write_signed i h, strtoll) (ap (λ (j : ℤ). (j, [])) (clamp_signed-parts i h))

hex-ne : (c : ℕ) → IsDigitOf 16 c → (is_space c ≡ false) × (c ≢ b' ') × (c ≢ b'-') × (c ≢ b':')
unfolding digit_of digit_value is_space
hex-ne c (d, h) = ground arith

digits-StartsDark :
    (base : ℕ) (s rest : Bytes)
    → base ≤ 16
    → s ≢ []
    → All (IsDigitOf base) s
    → StartsDark (s ++ rest)
digits-StartsDark base [] rest hi ne h = absurd (ne refl)
digits-StartsDark base (c ∷ s) rest hi ne ((d, h), _) = (digit_not_sign base c d hi h).0

pub format_hex-StartsDark : (width n : ℕ) (rest : Bytes) → StartsDark (format_hex width n ++ rest)
format_hex-StartsDark width n rest =
    digits-StartsDark 16 (format_hex width n) rest (omega arith) (format_hex-ne-nil width n)
      (format_hex-IsDigitOf width n)

pub write_signed-StartsDark : (i : ℤ) (rest : Bytes) → StartsDark (write_signed i ++ rest)
unfolding write_signed is_space
write_signed-StartsDark (pos n) rest =
    digits-StartsDark 10 (write_number 10 n) rest (omega arith) (write_number-ne-nil 10 n)
      (write_number-IsDigitOf 10 n (omega arith) (omega arith))
write_signed-StartsDark (negsuc n) rest = refl

-- Hexadecimal text holds none of the separators of a line.
pub hex-Lacks :
    (width n : ℕ)
    → Lacks b' ' (format_hex width n)
      × Lacks b'-' (format_hex width n)
      × Lacks b':' (format_hex width n)
hex-Lacks width n = (
  All-map (λ c h. (hex-ne c h).1) (format_hex width n) (format_hex-IsDigitOf width n),
  All-map (λ c h. (hex-ne c h).2) (format_hex width n) (format_hex-IsDigitOf width n),
  All-map (λ c h. (hex-ne c h).3) (format_hex width n) (format_hex-IsDigitOf width n),
)

decimal-ne : (c : ℕ) → IsDigitOf 10 c → c ≢ b' '
unfolding digit_of digit_value
decimal-ne c (d, h) = ground arith

decimal-Lacks : (n : ℕ) → Lacks b' ' (write_number 10 n)
decimal-Lacks n =
    All-map decimal-ne (write_number 10 n) (write_number-IsDigitOf 10 n (omega arith) (omega arith))

pub write_signed-Lacks : (i : ℤ) → Lacks b' ' (write_signed i)
unfolding write_signed
write_signed-Lacks (pos n) = decimal-Lacks n
write_signed-Lacks (negsuc n) = (omega arith, decimal-Lacks (suc n))

pub clamp_small : (n : ℕ) → n < 2 ^ 64 → clamp_unsigned false n ≡ n
unfolding clamp_unsigned
clamp_small n h = ground arith
