-- ===== src/Common/Lists.antt =====
-- Lists as the rows of a table: search, test and update by a Boolean predicate.
use Prim.Native.Nat.{ℕ, suc}
use mathlib.Core.Path.{◌≡◌, refl, ap}
use mathlib.Core.Bool.{Bool, true, false, ◌||◌, ◌&&◌}
use mathlib.Core.Logic.{inl, inr}
use mathlib.Core.Option
use mathlib.Core.Option.{Option, none, some}
use mathlib.Core.List.{List, [], ◌∷◌, ◌++◌}
use native.Mathlib.Omega.{arith}
use ushnotice.Common.Logic.{if◌then◌else◌, Bool-cases}

module _ {ℓ} {A : Type ℓ} where
  abbrev pub length : List A → ℕ
  length [] = 0
  length (x ∷ xs) = suc (length xs)

  -- `scalars().first()`
  unfoldable pub find_first : (A → Bool) → List A → Option A
  find_first p [] = none
  find_first p (x ∷ xs) = if p x then some x else find_first p xs

  unfoldable pub any : (A → Bool) → List A → Bool
  any p [] = false
  any p (x ∷ xs) = p x || any p xs

  -- `update(T).where(p).values(f)`
  unfoldable pub update_where : (A → Bool) → (A → A) → List A → List A
  update_where p f [] = []
  update_where p f (x ∷ xs) = (if p x then f x else x) ∷ update_where p f xs

  pub count_where : (A → Bool) → List A → ℕ
  count_where p [] = 0
  count_where p (x ∷ xs) = if p x then suc (count_where p xs) else count_where p xs

module _ {ℓ κ} {A : Type ℓ} (P : A → Type κ) where
  abbrev pub All : List A → Type κ
  All [] = Unit
  All (x ∷ xs) = P x × All xs

  pub All-append : (xs ys : List A) → All xs → All ys → All (xs ++ ys)
  All-append [] ys _ k = k
  All-append (x ∷ xs) ys (p, h) k = (p, All-append xs ys h k)

module _ {ℓ} {A : Type ℓ} where
  -- An update that keeps the test of a search, and changes none of the rows that it accepts.
  pub find_first-update_where_keep :
      (p q : A → Bool) (f : A → A) (xs : List A)
      → ((x : A) → q (f x) ≡ q x)
      → ((x : A) → p x ≡ true → q x ≡ false)
      → find_first q (update_where p f xs) ≡ find_first q xs
  unfolding find_first update_where
  find_first-update_where_keep p q f [] keeps apart = refl
  find_first-update_where_keep p q f (x ∷ xs) keeps apart =
      ground (arith, keeps x, apart x, find_first-update_where_keep p q f xs keeps apart)

  -- A search by what an update keeps finds the same row, updated.
  pub find_first-update_where_on :
      (p q : A → Bool) (f : A → A) (xs : List A)
      → ((x : A) → p x ≡ true → q (f x) ≡ q x)
      → find_first q (update_where p f xs)
        ≡ Option.map (λ x. if p x then f x else x) (find_first q xs)
  unfolding find_first update_where
  find_first-update_where_on p q f [] keeps = refl
  find_first-update_where_on p q f (x ∷ xs) keeps =
      ground (arith, keeps x, find_first-update_where_on p q f xs keeps)

  pub find_first-update_where :
      (p q : A → Bool) (f : A → A) (xs : List A)
      → ((x : A) → q (f x) ≡ q x)
      → find_first q (update_where p f xs)
        ≡ Option.map (λ x. if p x then f x else x) (find_first q xs)
  find_first-update_where p q f xs keeps = find_first-update_where_on p q f xs (λ x _. keeps x)

  -- What a search finds passes its test.
  pub find_first_sound :
      (q : A → Bool) (xs : List A) {a : A} → find_first q xs ≡ some a → q a ≡ true
  unfolding find_first
  find_first_sound q [] e = cc
  find_first_sound q (x ∷ xs) {a} e = elim (Bool-cases (q x)) [
    | inl hit ↦ let same : x ≡ a = ground arith in rw (← same) hit
    | inr miss ↦ find_first_sound q xs (ground arith)
  ]

  pub any-update_where :
      (p q : A → Bool) (f : A → A) (xs : List A)
      → ((x : A) → q (f x) ≡ q x)
      → any q (update_where p f xs) ≡ any q xs
  unfolding any update_where
  any-update_where p q f [] keeps = refl
  any-update_where p q f (x ∷ xs) keeps = ground (arith, keeps x, any-update_where p q f xs keeps)

  -- What a search finds is among the rows, with all that holds of it.
  pub any_of_find_first :
      (p r : A → Bool) (xs : List A) {a : A}
      → find_first p xs ≡ some a
      → r a ≡ true
      → any (λ x. p x && r x) xs ≡ true
  unfolding find_first any
  any_of_find_first p r [] h k = cc
  any_of_find_first p r (x ∷ xs) {a} h k = elim (Bool-cases (p x)) [
    | inl hit ↦ let same : x ≡ a = ground arith in rw hit (ground (arith, ap r same))
    | inr miss ↦ ground (arith, any_of_find_first p r xs {a = a} (ground arith) k)
  ]

  pub length-update_where :
      (p : A → Bool) (f : A → A) (xs : List A) → length (update_where p f xs) ≡ length xs
  unfolding update_where
  length-update_where p f [] = refl
  length-update_where p f (x ∷ xs) = ap suc (length-update_where p f xs)
