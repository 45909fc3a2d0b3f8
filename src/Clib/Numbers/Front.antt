-- ===== src/Clib/Numbers/Front.antt =====
-- A number in front of other text, as the conversions of sscanf meet it.
use jointprof.Clib.Chars.{digit_of, is_space}
use jointprof.Clib.Numbers.{
  IsDigitOf, scan_digits-cons, digit_not_sign, skip_space-digit, skip_sign-digit, scan_number-digit,
  write_number-IsDigitOf, write_number-ne-nil, scan_digits-write_number,
}
use jointprof.Clib.Printf.{write_number, write_signed}
use jointprof.Clib.Strto.{skip_space, skip_sign, scan_number, skip_prefix, scan_digits, scan}
use jointprof.Common.{
  suc, true, ℤ, pos, negsuc, IsInt64, is_negative, magnitude, ℕ, ◌+◌, ◌*◌, ◌^◌, ◌≤◌, ◌<◌, ◌≡◌, ◌≢◌,
  refl, sym, ap, ◌∙◌, false, none, some, [], ◌∷◌, ◌++◌, ◌==◌, Bytes, All, arith,
}

-- The text ends a number, and is not the second half of a `0x`.
abbrev pub Stops : ℕ → Bytes → Type 0
Stops base [] = Unit
Stops base (x ∷ tail) = (digit_of base x ≡ none) × (x == b'x' ≡ false) × (x == b'X' ≡ false)

scan_digits-append :
    (base k : ℕ) (s tail : Bytes)
    → All (IsDigitOf base) s
    → Stops base tail
    → scan_digits base k (s ++ tail) ≡ ((scan_digits base k s).0, tail)
unfolding scan_digits
scan_digits-append base k [] [] h stop = refl
scan_digits-append base k [] (x ∷ tail) h (stop, _, _) = rw (stop, scan_digits)
scan_digits-append base k (c ∷ s) tail ((d, e), h) stop =
    scan_digits-cons base k c d (s ++ tail) e
    ∙ scan_digits-append base (k * base + d) s tail h stop
    ∙ ap (λ (r : ℕ × Bytes). (r.0, tail)) (sym (scan_digits-cons base k c d s e))

skip_prefix-append :
    (base : ℕ) (c : ℕ) (s tail : Bytes)
    → base ≤ 16
    → All (IsDigitOf base) s
    → Stops base tail
    → skip_prefix base (c ∷ (s ++ tail)) ≡ c ∷ (s ++ tail)
unfolding skip_prefix
skip_prefix-append base c (b ∷ b' ∷ s) tail hi ((d, h), _) stop =
    ground (arith, digit_not_sign base b d hi h)
skip_prefix-append base c (b ∷ []) (x ∷ tail) hi ((d, h), _) stop =
    ground (arith, digit_not_sign base b d hi h)
skip_prefix-append base c (b ∷ []) [] hi h stop = refl
skip_prefix-append base c [] (x ∷ y ∷ tail) hi h (_, small, large) = ground (arith, small, large)
skip_prefix-append base c [] (x ∷ []) hi h stop = refl
skip_prefix-append base c [] [] hi h stop = refl

pub scan-append :
    (base n : ℕ) (s tail : Bytes)
    → base ≤ 16
    → s ≢ []
    → All (IsDigitOf base) s
    → scan_digits base 0 s ≡ (n, [])
    → Stops base tail
    → scan base (s ++ tail) ≡ some (false, n, tail)
unfolding scan
scan-append base n [] tail hi ne h e stop = absurd (ne refl)
scan-append base n (c ∷ s) tail hi ne h e stop =
    let whole =
      scan_number-digit base c (s ++ tail) h.0
      ∙ ap some
          (scan_digits-append base 0 (c ∷ s) tail h stop ∙ ap (λ (r : ℕ × Bytes). (r.0, tail)) e) in
    rw
      (
        skip_space-digit base c (s ++ tail) hi h.0,
        skip_sign-digit base c (s ++ tail) hi h.0,
        skip_prefix-append base c s tail hi h.1 stop,
        whole,
        scan,
      )
      (rw (skip_space-digit base c (s ++ tail) hi h.0, skip_sign-digit base c (s ++ tail) hi h.0))

skip_space-append :
    (base : ℕ) (s tail : Bytes)
    → base ≤ 16
    → s ≢ []
    → All (IsDigitOf base) s
    → skip_space (s ++ tail) ≡ s ++ tail
skip_space-append base [] tail hi ne h = absurd (ne refl)
skip_space-append base (c ∷ s) tail hi ne h = skip_space-digit base c (s ++ tail) hi h.0

-- What printf writes of a number stands behind the white space in front of it.
pub skip_space-write_number :
    (base n : ℕ) (tail : Bytes)
    → 2 ≤ base
    → base ≤ 16
    → skip_space (b' ' ∷ (write_number base n ++ tail)) ≡ write_number base n ++ tail
unfolding skip_space is_space
skip_space-write_number base n tail lo hi =
    skip_space-append base (write_number base n) tail hi (write_number-ne-nil base n)
      (write_number-IsDigitOf base n lo hi)

-- It is read back, and the text behind it is left.
pub scan-write_number :
    (base n : ℕ) (tail : Bytes)
    → 2 ≤ base
    → base ≤ 16
    → n < 2 ^ 64
    → Stops base tail
    → scan base (write_number base n ++ tail) ≡ some (false, n, tail)
scan-write_number base n tail lo hi h stop =
    scan-append base n (write_number base n) tail hi (write_number-ne-nil base n)
      (write_number-IsDigitOf base n lo hi) (scan_digits-write_number base n lo hi h) stop

scan_minus-append :
    (base n : ℕ) (s tail : Bytes)
    → base ≤ 16
    → s ≢ []
    → All (IsDigitOf base) s
    → scan_digits base 0 s ≡ (n, [])
    → Stops base tail
    → scan base (b'-' ∷ (s ++ tail)) ≡ some (true, n, tail)
unfolding scan skip_space skip_sign is_space scan_number skip_prefix
scan_minus-append base n [] tail hi ne h e stop = absurd (ne refl)
scan_minus-append base n (c ∷ s) tail hi ne h e stop =
    let whole =
      scan_number-digit base c (s ++ tail) h.0
      ∙ ap some
          (scan_digits-append base 0 (c ∷ s) tail h stop ∙ ap (λ (r : ℕ × Bytes). (r.0, tail)) e) in
    rw (skip_prefix-append base c s tail hi h.1 stop, whole, scan)

-- What `%d` writes of an int64 is read back in front of other text.
pub scan-signed :
    (i : ℤ) (tail : Bytes)
    → IsInt64 i
    → Stops 10 tail
    → scan 10 (write_signed i ++ tail) ≡ some (is_negative i, magnitude i, tail)
unfolding write_signed
scan-signed (pos n) tail h stop =
    scan-write_number 10 n tail (omega arith) (omega arith) (omega arith) stop
scan-signed (negsuc n) tail h stop =
    scan_minus-append 10 (suc n) (write_number 10 (suc n)) tail (omega arith)
      (write_number-ne-nil 10 (suc n))
      (write_number-IsDigitOf 10 (suc n) (omega arith) (omega arith))
      (scan_digits-write_number 10 (suc n) (omega arith) (omega arith) (omega arith)) stop
