-- ===== src/Clib/Scanf.antt =====
-- `sscanf`, with the directives that src/sysinfo.cpp uses.
use jointprof.Clib.Chars.{is_space}
use jointprof.Clib.Strto.{skip_space, scan}
use jointprof.Common.{
  ℕ, zero, suc, ◌-◌, ◌≡◌, Bool, Option, none, some, List, [], ◌∷◌, ◌==◌, if◌then◌else◌, Bytes,
  length,
}

-- `%d` and its longer forms, `%x` and `%p`, and `%s` with its width.
pub data Conversion : Type 0 where
  decimal hexadecimal : Conversion
  word : ℕ → Conversion

-- A plain character, white space, a conversion with or without `*`, and `%n`.
pub data Directive : Type 0 where
  literal : ℕ → Directive
  space count : Directive
  store skip : Conversion → Directive

-- What is stored: a sign with a magnitude, which the caller's type cuts, or a text.
pub data Value : Type 0 where
  number : Bool → ℕ → Value
  text : Bytes → Value

-- The characters up to white space, at most so many.
unfoldable pub take_word : ℕ → Bytes → Bytes × Bytes
take_word zero s = ([], s)
take_word (suc n) [] = ([], [])
take_word (suc n) (c ∷ s) =
    let (front, rest) = take_word n s in if is_space c then ([], c ∷ s) else (c ∷ front, rest)

read_number : ℕ → Bytes → Option (Value × Bytes)
read_number base s = elim (scan base s) [
  | none ↦ none
  | some (minus, n, rest) ↦ some (number minus n, rest)
]

some_word : Bytes × Bytes → Option (Value × Bytes)
some_word ([], rest) = none
some_word (c ∷ front, rest) = some (text (c ∷ front), rest)

-- One conversion: the value and the rest.
unfoldable pub convert : Conversion → Bytes → Option (Value × Bytes)
unfolding read_number some_word
convert decimal s = read_number 10 s
convert hexadecimal s = read_number 16 s
convert (word width) s = some_word (take_word width (skip_space s))

unfoldable pub expect : ℕ → Bytes → Option Bytes
expect c [] = none
expect c (x ∷ s) = if x == c then some s else none

-- The directives from here on, in a text of `total` bytes: the values stored, and what `%n` stores if
-- it is reached.
unfoldable pub scan_directives : ℕ → List Directive → Bytes → List Value × Option ℕ
scan_directives total [] s = ([], none)
scan_directives total (literal c ∷ format) s = elim (expect c s) [
  | none ↦ ([], none)
  | some rest ↦ scan_directives total format rest
]
scan_directives total (space ∷ format) s = scan_directives total format (skip_space s)
scan_directives total (count ∷ format) s =
    ((scan_directives total format s).0, some (total - length s))
scan_directives total (store c ∷ format) s = elim (convert c s) [
  | none ↦ ([], none)
  | some (v, rest) ↦ let (values, n) = scan_directives total format rest in (v ∷ values, n)
]
scan_directives total (skip c ∷ format) s = elim (convert c s) [
  | none ↦ ([], none)
  | some (v, rest) ↦ scan_directives total format rest
]

-- sscanf; its result is the number of values.
unfoldable pub sscanf : Bytes → List Directive → List Value × Option ℕ
sscanf s format = scan_directives (length s) format s

-- A number that is there is converted.
read_number_lem :
    (base n : ℕ) (minus : Bool) (s rest : Bytes)
    → scan base s ≡ some (minus, n, rest)
    → read_number base s ≡ some (number minus n, rest)
unfolding read_number
read_number_lem base n minus s rest e = rw (e, read_number)

pub convert-hexadecimal :
    (n : ℕ) (minus : Bool) (s rest : Bytes)
    → scan 16 s ≡ some (minus, n, rest)
    → convert hexadecimal s ≡ some (number minus n, rest)
unfolding convert
convert-hexadecimal n minus s rest e = read_number_lem 16 n minus s rest e

pub convert-decimal :
    (n : ℕ) (minus : Bool) (s rest : Bytes)
    → scan 10 s ≡ some (minus, n, rest)
    → convert decimal s ≡ some (number minus n, rest)
unfolding convert
convert-decimal n minus s rest e = read_number_lem 10 n minus s rest e
