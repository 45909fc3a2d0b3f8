-- ===== src/Maps/File/Laws.antt =====
-- What a read delivers.
use mathlib.Core.Option.{some-injective}
use jointprof.Maps.File.{ReadEvent, interrupted, failed, short, File, read_script, read_no_intr}
use jointprof.Common.{
  ℕ, ◌+◌, ◌≤◌, ◌<◌, ◌≡◌, ◌≢◌, refl, ap, ◌⊎◌, true, false, Option, none, some, List, [], ◌∷◌, ◌++◌,
  arith, Bytes, length, take, drop, min, take-append-drop, length-take, length-drop, subst,
  Bool-cases, inl, inr, nil_of_length, All,
}

-- No read fails. (Interrupted and short reads are allowed.)
abbrev pub NoFailure : List ReadEvent → Type 0
NoFailure = All (λ e. e ≢ failed)

-- A read of at most `n` bytes takes a beginning of what is unread, and nothing only at the end.
pub record Reads (n : ℕ) (unread : Bytes) (got : Option Bytes) (rest : Bytes) : Type 0 where
  pub gives :
      (b : Bytes) → got ≡ some b → (b ++ rest ≡ unread) × (length b ≤ n) × (b ≡ [] → rest ≡ [])
  pub keeps : got ≡ none → rest ≡ unread

take-Reads :
    (n k : ℕ) (unread : Bytes)
    → 0 < k
    → k ≤ n
    → Reads n unread (some (take k unread)) (drop k unread)
take-Reads n k unread pos le = record {
  gives = λ b e.
      subst (λ s. (s ++ drop k unread ≡ unread) × (length s ≤ n) × (s ≡ [] → drop k unread ≡ []))
        (some-injective (take k unread) b e)
        (
          take-append-drop k unread,
          omega (arith, length-take k unread),
          λ h.
              nil_of_length (drop k unread)
                (omega (arith, length-take k unread, length-drop k unread, ap length h)),
        );
  keeps = λ e. cc;
}

read_script-Reads :
    (script : List ReadEvent) (n : ℕ) (unread : Bytes)
    → 0 < n
    → let (got, rest, script') = read_script script n unread in Reads n unread got rest
unfolding read_script
read_script-Reads [] n unread h = take-Reads n n unread h (omega arith)
read_script-Reads (interrupted ∷ script) n unread h = read_script-Reads script n unread h
read_script-Reads (failed ∷ script) n unread h = record { gives = λ b e. cc; keeps = λ e. refl }
read_script-Reads (short k ∷ script) n unread h =
    take-Reads n (min (k + 1) n) unread (omega arith) (omega arith)

read_script-NoFailure :
    (script : List ReadEvent) (n : ℕ) (unread : Bytes)
    → NoFailure script
    → let (got, rest, script') = read_script script n unread in (got ≢ none) × NoFailure script'
unfolding read_script
read_script-NoFailure [] n unread h = ((λ e. cc), tt)
read_script-NoFailure (interrupted ∷ script) n unread (_, h) =
    read_script-NoFailure script n unread h
read_script-NoFailure (failed ∷ script) n unread (ne, h) = absurd (ne refl)
read_script-NoFailure (short k ∷ script) n unread (_, h) = ((λ e. cc), h)

pub read_no_intr-Reads :
    (file : File) (n : ℕ)
    → 0 < n
    → let (got, file') = read_no_intr file n in
      Reads n file.unread got file'.unread × (file'.is_open ≡ file.is_open)
unfolding read_no_intr
read_no_intr-Reads file n h = elim (Bool-cases file.is_open) [
  | inl e ↦ rw e (read_script-Reads file.script n file.unread h, refl)
  | inr e ↦ rw e (record { gives = λ b e'. cc; keeps = λ e'. refl }, refl)
]

pub read_no_intr-NoFailure :
    (file : File) (n : ℕ)
    → file.is_open ≡ true
    → NoFailure file.script
    → let (got, file') = read_no_intr file n in (got ≢ none) × NoFailure file'.script
unfolding read_no_intr
read_no_intr-NoFailure file n e h = rw e (read_script-NoFailure file.script n file.unread h)

-- The file is not open, or one of its reads fails.
abbrev pub Fails : File → Type 0
Fails file =
    (file.is_open ≡ false)
    ⊎ ((before : List ReadEvent) × (after : List ReadEvent) × (file.script
          ≡ before ++ (failed ∷ after)))

failure_cases :
    (script : List ReadEvent)
    → ((before : List ReadEvent) × (after : List ReadEvent) × (script ≡ before ++ (failed ∷ after)))
      ⊎ NoFailure script
failure_cases [] = inr tt
failure_cases (failed ∷ script) = inl ([], script, refl)
failure_cases (interrupted ∷ script) = elim (failure_cases script) [
  | inl (before, after, e) ↦ inl (interrupted ∷ before, after, ap (λ s. interrupted ∷ s) e)
  | inr safe ↦ inr ((λ e. cc), safe)
]
failure_cases (short k ∷ script) = elim (failure_cases script) [
  | inl (before, after, e) ↦ inl (short k ∷ before, after, ap (λ s. short k ∷ s) e)
  | inr safe ↦ inr ((λ e. cc), safe)
]

pub Fails-cases : (file : File) → Fails file ⊎ ((file.is_open ≡ true) × NoFailure file.script)
Fails-cases file = elim (Bool-cases file.is_open) [
  | inr closed ↦ inl (inl closed)
  | inl opened ↦ elim (failure_cases file.script) [
    | inl failure ↦ inl (inr failure)
    | inr safe ↦ inr (opened, safe)
  ]
]
