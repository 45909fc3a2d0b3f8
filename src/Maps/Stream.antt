-- ===== src/Maps/Stream.antt =====
-- The specification of the line reader: a text is cut into lines at its newlines.
use mathlib.Core.List.{cons-ne-nil}
use jointprof.Common.{
  ℕ, ◌≡◌, ◌≢◌, refl, ap, ◌⊎◌, inl, inr, Bool-cases, List, [], ◌∷◌, ◌++◌, arith, ◌==◌, if◌then◌else◌,
  Bytes, Lacks, ==-ne,
}

-- A byte in front of the lines of what follows it.
unfoldable pub push_byte : ℕ → List Bytes → List Bytes
push_byte c [] = (c ∷ []) ∷ []
push_byte c (line ∷ rest) = (c ∷ line) ∷ rest

-- The lines of a text, without their newlines. What stands behind the last newline is a line if it
-- is not empty.
unfoldable pub lines : Bytes → List Bytes
unfolding push_byte
lines [] = []
lines (c ∷ text) = let rest = lines text in if c == b'\n' then [] ∷ rest else push_byte c rest

pub lines-append :
    (line rest : Bytes) → Lacks b'\n' line → lines (line ++ (b'\n' ∷ rest)) ≡ line ∷ lines rest
unfolding lines
lines-append [] rest h = refl
lines-append (x ∷ line) rest (ne, h) = rw (==-ne x b'\n' ne, lines-append line rest h)

-- A text that begins with bytes other than newlines has a first line that begins with them.
pub lines_prefix :
    (line rest : Bytes)
    → Lacks b'\n' line
    → line ≢ []
    → (more : Bytes) × (others : List Bytes) × (lines (line ++ rest) ≡ (line ++ more) ∷ others)
unfolding lines
lines_prefix [] rest h ne = absurd (ne refl)
lines_prefix (x ∷ []) rest (ne, h) _ = go (lines rest)
  where
    go :
        (ls : List Bytes)
        → (more : Bytes) × (others : List Bytes) × ((if x == b'\n' then [] ∷ ls else push_byte x ls)
            ≡ (x ∷ more) ∷ others)
    go [] = ([], [], rw (==-ne x b'\n' ne))
    go (l ∷ ls) = (l, ls, rw (==-ne x b'\n' ne))
lines_prefix (x ∷ y ∷ line) rest (ne, h) _ =
    let (more, others, e) = lines_prefix (y ∷ line) rest h (cons-ne-nil y line) in
    (more, others, rw (==-ne x b'\n' ne) (ap (push_byte x) e))

pub lines-Lacks : (line : Bytes) → Lacks b'\n' line → line ≢ [] → lines line ≡ line ∷ []
unfolding lines
lines-Lacks [] h ne = absurd (ne refl)
lines-Lacks (x ∷ []) (ne, h) _ = rw (==-ne x b'\n' ne)
lines-Lacks (x ∷ y ∷ line) (ne, h) _ =
    rw (==-ne x b'\n' ne) (ap (push_byte x) (lines-Lacks (y ∷ line) h (cons-ne-nil y line)))

-- A text has a first newline or none.
pub newline_cases :
    (text : Bytes)
    → ((line : Bytes) × (rest : Bytes) × (text ≡ line ++ (b'\n' ∷ rest)) × Lacks b'\n' line)
      ⊎ Lacks b'\n' text
newline_cases [] = inr tt
newline_cases (c ∷ text) = elim (Bool-cases (c == b'\n')) [
  | inl e ↦ inl ([], text, ap (λ d. d ∷ text) (ground arith), tt)
  | inr ne ↦ elim (newline_cases text) [
    | inl (line, rest, e, h) ↦ inl (c ∷ line, rest, ap (λ t. c ∷ t) e, (ground arith, h))
    | inr h ↦ inr (ground arith, h)
  ]
]
