-- ===== src/Common/Tests.antt =====
-- Boolean tests on native numbers, the conditional, and the chain of optional results.
use Prim.Native.Nat.{ℕ, compare, Ordering}
use mathlib.Core.Path.{◌≡◌, refl, ap}
use mathlib.Core.Logic.{◌≢◌, ◌⊎◌, inl, inr}
use mathlib.Core.Bool.{Bool, true, false}
use mathlib.Core.Option.{Option, none, some}
use native.Mathlib.Omega.{arith}

abbrev pub ltb : ℕ → ℕ → Bool
ltb a b = elim (compare a b) [ Ordering.lt ↦ true | _ ↦ false ]

abbrev pub leb : ℕ → ℕ → Bool
leb a b = elim (compare a b) [ Ordering.gt ↦ false | _ ↦ true ]

infix 50 ◌==◌
abbrev pub ◌==◌ : ℕ → ℕ → Bool
a == b = elim (compare a b) [ Ordering.eq ↦ true | _ ↦ false ]

infix 1 if◌then◌else◌
abbrev pub if◌then◌else◌ {ℓ} : {A : Type ℓ} → Bool → A → A → A
if true then x else y = x
if false then x else y = y

infixl 5 ◌>>=◌
abbrev pub ◌>>=◌ {ℓ κ} : {A : Type ℓ} {B : Type κ} → Option A → (A → Option B) → Option B
none >>= f = none
some a >>= f = f a

pub Bool-cases : (b : Bool) → (b ≡ true) ⊎ (b ≡ false)
Bool-cases true = inl refl
Bool-cases false = inr refl

pub Option-cases {ℓ} : {A : Type ℓ} (o : Option A) → (o ≡ none) ⊎ ((a : A) × (o ≡ some a))
Option-cases none = inl refl
Option-cases (some a) = inr (a, refl)

pub ==-refl : (a : ℕ) → (a == a) ≡ true
==-refl a = ground arith

pub ==-ne : (a b : ℕ) → a ≢ b → (a == b) ≡ false
==-ne a b h = ground arith

-- A step of a chain that succeeds.
pub bind_some {ℓ κ} :
    {A : Type ℓ} {B : Type κ} (f : A → Option B) {m : Option A} {a : A}
    → m ≡ some a
    → (m >>= f) ≡ f a
bind_some f e = ap (λ m. m >>= f) e

-- A predicate on what is there, if it is there.
abbrev pub OnSome {ℓ κ} : {A : Type ℓ} → (A → Type κ) → Option A → Type κ
OnSome P none = Unit
OnSome P (some x) = P x

pub OnSome-bind {ℓ ℓ' κ κ'} :
    {A : Type ℓ} {B : Type ℓ'} (P : A → Type κ) (Q : B → Type κ') (m : Option A) (f : A → Option B)
    → OnSome P m
    → ((x : A) → P x → OnSome Q (f x))
    → OnSome Q (m >>= f)
OnSome-bind P Q none f p k = tt
OnSome-bind P Q (some x) f p k = k x p

pub OnSome-true {ℓ} : {A : Type ℓ} (o : Option A) → OnSome {ℓ, 0} (λ _. Unit {0}) o
OnSome-true none = tt
OnSome-true (some x) = tt

pub ==-cases : (a b : ℕ) → (a ≡ b) ⊎ (a ≢ b)
==-cases a b = go (Bool-cases (a == b))
  where
    go : ((a == b) ≡ true) ⊎ ((a == b) ≡ false) → (a ≡ b) ⊎ (a ≢ b)
    go (inl e) = inl (ground arith)
    go (inr e) = inr (λ h. ground arith)
