-- ===== src/Profiler/Words.antt =====
-- The words of a profile: `intptr_t` of 64 bits, little-endian.
use jointprof.Common.{
  ℕ, ◌+◌, ◌*◌, ◌/◌, ◌%◌, ◌^◌, ◌<◌, ◌≡◌, ap, Option, none, some, List, [], ◌∷◌, ◌++◌, arith, Bytes,
}

-- The eight bytes of a word in memory.
unfoldable pub word_bytes : ℕ → Bytes
word_bytes w =
    w % 256
    ∷ w / 256 % 256
    ∷ w / 2 ^ 16 % 256
    ∷ w / 2 ^ 24 % 256
    ∷ w / 2 ^ 32 % 256
    ∷ w / 2 ^ 40 % 256
    ∷ w / 2 ^ 48 % 256
    ∷ w / 2 ^ 56 % 256
    ∷ []

-- `ofs.write(reinterpret_cast<const char*>(words), sizeof(words))`
unfoldable pub words_bytes : List ℕ → Bytes
words_bytes [] = []
words_bytes (w ∷ words) = word_bytes w ++ words_bytes words

-- A reader of a word.
unfoldable pub read_word : Bytes → Option (ℕ × Bytes)
read_word (a ∷ b ∷ c ∷ d ∷ e ∷ f ∷ g ∷ h ∷ rest) = some (
  a + 256 * b + 2 ^ 16 * c + 2 ^ 24 * d + 2 ^ 32 * e + 2 ^ 40 * f + 2 ^ 48 * g + 2 ^ 56 * h,
  rest,
)
read_word rest = none

pub read_word-word_bytes :
    (w : ℕ) (rest : Bytes) → w < 2 ^ 64 → read_word (word_bytes w ++ rest) ≡ some (w, rest)
unfolding read_word word_bytes
read_word-word_bytes w rest h = ap (λ (v : ℕ). some (v, rest)) (omega arith)
