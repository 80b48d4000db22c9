-- ===== src/Common/Logic.antt =====
-- Boolean tests, the conditional, and case splits that keep the equation.
use Prim.Native.Nat.{ℕ, compare, Ordering}
use mathlib.Core.Path.{◌≡◌, refl}
use mathlib.Core.Logic.{◌⊎◌, inl, inr}
use mathlib.Core.Bool.{Bool, true, false}
use mathlib.Core.Option.{Option, none, some}

abbrev pub ltb : ℕ → ℕ → Bool
ltb a b = elim (compare a b) [ Ordering.lt ↦ true | _ ↦ false ]

abbrev pub leb : ℕ → ℕ → Bool
leb a b = elim (compare a b) [ Ordering.gt ↦ false | _ ↦ true ]

abbrev pub nat_eq : ℕ → ℕ → Bool
nat_eq a b = elim (compare a b) [ Ordering.eq ↦ true | _ ↦ false ]

infix 1 if◌then◌else◌
abbrev pub if◌then◌else◌ {ℓ} : {A : Type ℓ} → Bool → A → A → A
if true then x else y = x
if false then x else y = y

pub Bool-cases : (b : Bool) → (b ≡ true) ⊎ (b ≡ false)
Bool-cases true = inl refl
Bool-cases false = inr refl

pub Option-cases {ℓ} : {A : Type ℓ} (o : Option A) → (o ≡ none) ⊎ ((a : A) × (o ≡ some a))
Option-cases none = inl refl
Option-cases (some a) = inr (a, refl)

-- The bind of options, which `do` blocks stand for.
infixl 5 ◌>>=◌
abbrev pub ◌>>=◌ {ℓ κ} : {A : Type ℓ} {B : Type κ} → Option A → (A → Option B) → Option B
none >>= f = none
some a >>= f = f a

-- What an option holds, if anything, satisfies P.
abbrev pub Yields {ℓ κ} : {A : Type ℓ} → (A → Type κ) → Option A → Type κ
Yields P none = Unit
Yields P (some a) = P a

module _ {ℓ κ ν μ} {A : Type ℓ} {B : Type κ} (P : A → Type ν) (Q : B → Type μ) where
  pub Yields-bind_from :
      (o : Option A) (f : A → Option B)
      → Yields P o
      → ((a : A) → P a → Yields Q (f a))
      → Yields Q (o >>= f)
  Yields-bind_from none f h k = tt
  Yields-bind_from (some a) f h k = k a h

module _ {ℓ κ μ} {A : Type ℓ} {B : Type κ} (Q : B → Type μ) where
  pub Yields-bind :
      (o : Option A) (f : A → Option B) → ((a : A) → Yields Q (f a)) → Yields Q (o >>= f)
  Yields-bind none f k = tt
  Yields-bind (some a) f k = k a
