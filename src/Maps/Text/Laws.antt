-- ===== src/Maps/Text/Laws.antt =====
-- What the parser's helpers return on a text that begins with a field and its separator.
use jointprof.Clib.Chars.{is_space, StartsDark}
use jointprof.Maps.Text.{
  Integer, extract_until_char, skip_loop, skip_while_whitespace, string_to_integer_until_char,
  copy_string_until_char, step_over, string_to_integer_until_char_with_check,
}
use jointprof.Common.{
  ℕ, zero, suc, ◌-◌, ◌≤◌, ◌≡◌, refl, false, some, [], ◌∷◌, ◌++◌, arith, Bytes, replicate, length,
  Lacks, take_all, ==-refl, ==-ne,
}

pub extract_until_char-append :
    (s rest : Bytes) (c : ℕ) → Lacks c s → extract_until_char (s ++ (c ∷ rest)) c ≡ some (s, rest)
unfolding extract_until_char
extract_until_char-append [] rest c h = rw (==-refl c)
extract_until_char-append (x ∷ s) rest c (ne, h) =
    rw (==-ne x c ne, extract_until_char-append s rest c h)

skip_loop-spaces :
    (k : ℕ) (rest : Bytes)
    → StartsDark rest
    → skip_loop (b' ' ∷ (replicate k b' ' ++ rest)) ≡ b' ' ∷ rest
unfolding skip_loop is_space
skip_loop-spaces zero [] h = refl
skip_loop-spaces zero (c ∷ rest) h = ground (arith, h)
skip_loop-spaces (suc k) rest h = skip_loop-spaces k rest h

-- The pointer that is left on the last separator moves over it.
abbrev pub Moves : ℕ → Bytes → Bytes → Type 0
Moves c rest next = step_over (some (skip_while_whitespace (c ∷ rest) c)) ≡ some next

pub spaces-Moves :
    (k : ℕ) (rest : Bytes) → StartsDark rest → Moves b' ' (replicate k b' ' ++ rest) rest
unfolding step_over skip_while_whitespace is_space
spaces-Moves k rest h = rw (skip_loop-spaces k rest h)

pub dark-Moves : (c : ℕ) (rest : Bytes) → is_space c ≡ false → Moves c rest rest
unfolding step_over skip_while_whitespace
dark-Moves c rest h = rw h

-- The conversion of a field that is read up to its separator.
pub until_char-append {ℓ} :
    {T : Type ℓ} (t : Integer T) (s rest : Bytes) (base c : ℕ) (v : T)
    → Lacks c s
    → t.string_to_integer s base ≡ (v, [])
    → string_to_integer_until_char t (s ++ (c ∷ rest)) base c
      ≡ (v, some (skip_while_whitespace (c ∷ rest) c))
unfolding string_to_integer_until_char
until_char-append t s rest base c v lacks reads =
    rw (extract_until_char-append s rest c lacks, string_to_integer_until_char)
      (rw (reads, string_to_integer_until_char))

pub read_integer-append {ℓ} :
    {T : Type ℓ} (t : Integer T) (s rest next : Bytes) (base c : ℕ) (v : T)
    → Lacks c s
    → t.string_to_integer s base ≡ (v, [])
    → Moves c rest next
    → string_to_integer_until_char_with_check t (s ++ (c ∷ rest)) base c ≡ some (v, next)
unfolding string_to_integer_until_char_with_check
read_integer-append t s rest next base c v lacks reads moves =
    rw (until_char-append t s rest base c v lacks reads, string_to_integer_until_char_with_check)
      (rw (moves, string_to_integer_until_char_with_check)
        (rw (until_char-append t s rest base c v lacks reads)))

pub copy_string-append :
    (s rest : Bytes) (n c : ℕ)
    → Lacks c s
    → length s ≤ n - 1
    → copy_string_until_char (s ++ (c ∷ rest)) n c ≡ some (s, skip_while_whitespace (c ∷ rest) c)
unfolding copy_string_until_char
copy_string-append s rest n c lacks fits =
    rw (extract_until_char-append s rest c lacks, copy_string_until_char)
      (rw (take_all (n - 1) s fits))
