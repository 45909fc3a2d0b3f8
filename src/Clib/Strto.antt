-- ===== src/Clib/Strto.antt =====
-- `strtol`, `strtoll` and `strtoull`. A pointer into the text is the rest of the text from there on.
use jointprof.Clib.Chars.{is_space, digit_of}
use jointprof.Common.{
  ℕ, zero, suc, ◌+◌, ◌-◌, ◌*◌, ◌%◌, ◌^◌, Bool, true, false, ◌&&◌, ◌||◌, Option, none, some, [], ◌∷◌,
  ltb, ◌==◌, if◌then◌else◌, Bytes, ℤ, pos, negsuc,
}

-- The leading white space that every conversion skips.
unfoldable pub skip_space : Bytes → Bytes
unfolding is_space
skip_space [] = []
skip_space (c ∷ s) = if is_space c then skip_space s else c ∷ s

-- The digits of the base from here on: their value behind `n`, and the rest.
unfoldable pub scan_digits : ℕ → ℕ → Bytes → ℕ × Bytes
scan_digits base n [] = (n, [])
scan_digits base n (c ∷ s) = elim (digit_of base c) [
  | none ↦ (n, c ∷ s)
  | some d ↦ scan_digits base (n * base + d) s
]

-- At least one digit is wanted.
unfoldable pub scan_number : ℕ → Bytes → Option (ℕ × Bytes)
scan_number base [] = none
scan_number base (c ∷ s) = elim (digit_of base c) [
  | none ↦ none
  | some d ↦ some (scan_digits base d s)
]

is_digit : ℕ → ℕ → Bool
is_digit base c = elim (digit_of base c) [ none ↦ false | some d ↦ true ]

-- In base 16 a `0x` before a digit is passed over.
unfoldable pub skip_prefix : ℕ → Bytes → Bytes
unfolding is_digit
skip_prefix base (a ∷ b ∷ c ∷ s) =
    if base == 16 && a == b'0' && (b == b'x' || b == b'X') && is_digit 16 c
    then c ∷ s
    else a ∷ b ∷ c ∷ s
skip_prefix base s = s

-- An optional sign: whether it is a minus, and the rest.
unfoldable pub skip_sign : Bytes → Bool × Bytes
skip_sign [] = (false, [])
skip_sign (c ∷ s) =
    if c == b'-' then (true, s) else if c == b'+' then (false, s) else (false, c ∷ s)

-- The sign, the magnitude and the rest; `none` if there is nothing to convert.
unfoldable pub scan : ℕ → Bytes → Option (Bool × ℕ × Bytes)
scan base text =
    let (minus, body) = skip_sign (skip_space text) in
    elim (scan_number base (skip_prefix base body)) [
      | none ↦ none
      | some (n, rest) ↦ some (minus, n, rest)
    ]

-- Out of range is ULLONG_MAX; a minus negates in the unsigned type.
unfoldable pub clamp_unsigned : Bool → ℕ → ℕ
clamp_unsigned minus n =
    if ltb (2 ^ 64 - 1) n then 2 ^ 64 - 1 else if minus then (2 ^ 64 - n) % 2 ^ 64 else n

negate : ℕ → ℤ
negate zero = pos zero
negate (suc n) = negsuc n

-- Out of range is LLONG_MIN or LLONG_MAX.
unfoldable pub clamp_signed : Bool → ℕ → ℤ
unfolding negate
clamp_signed true n = if ltb (2 ^ 63) n then negsuc (2 ^ 63 - 1) else negate n
clamp_signed false n = if ltb (2 ^ 63 - 1) n then pos (2 ^ 63 - 1) else pos n

-- Nothing to convert gives 0, and the end pointer is the text itself.
unfoldable pub strtoull : Bytes → ℕ → ℕ × Bytes
strtoull text base = elim (scan base text) [
  | none ↦ (0, text)
  | some (minus, n, rest) ↦ (clamp_unsigned minus n, rest)
]

-- `strtol` is the same function where `long` has 64 bits.
unfoldable pub strtoll : Bytes → ℕ → ℤ × Bytes
strtoll text base = elim (scan base text) [
  | none ↦ (pos 0, text)
  | some (minus, n, rest) ↦ (clamp_signed minus n, rest)
]
