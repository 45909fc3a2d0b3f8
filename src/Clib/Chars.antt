-- ===== src/Clib/Chars.antt =====
-- Character classes and digits of <ctype.h> in the "C" locale.
use jointprof.Common.{
  ℕ, ◌+◌, ◌-◌, ◌<◌, ◌≡◌, Bool, false, ◌&&◌, ◌||◌, Option, none, some, arith, ltb, leb, ◌==◌,
  if◌then◌else◌, Bytes, [], ◌∷◌,
}

-- `isspace`: tab, newline, vertical tab, form feed, carriage return, space.
unfoldable pub is_space : ℕ → Bool
is_space c = (leb 9 c && leb c 13) || c == b' '

-- The value of a digit or letter, for bases up to 36.
unfoldable pub digit_value : ℕ → Option ℕ
digit_value c =
    if leb b'0' c && leb c b'9'
    then some (c - b'0')
    else if leb b'a' c && leb c b'z'
    then some (c - b'a' + 10)
    else if leb b'A' c && leb c b'Z'
    then some (c - b'A' + 10)
    else none

-- The value of a digit of the base.
unfoldable pub digit_of : ℕ → ℕ → Option ℕ
unfolding digit_value
digit_of base c = elim (digit_value c) [
  | none ↦ none
  | some d ↦ if ltb d base then some d else none
]

-- The digit that `printf` writes for a value below 16.
unfoldable pub digit_char : ℕ → ℕ
digit_char d = if ltb d 10 then b'0' + d else b'a' + (d - 10)

-- Reading a written digit gives its value, in every base that has it.
pub digit_of-digit_char : (base d : ℕ) → d < base → d < 16 → digit_of base (digit_char d) ≡ some d
unfolding digit_of digit_char
digit_of-digit_char base d h k = ground arith

-- The text is empty or begins with a byte that is no white space.
abbrev pub StartsDark : Bytes → Type 0
StartsDark [] = Unit
StartsDark (c ∷ text) = is_space c ≡ false
