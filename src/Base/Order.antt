-- ===== src/Base/Order.antt =====
-- ORDER BY: a stable insertion sort. Rows that compare equal keep the order of the table; SQLite
-- leaves that order open, and no theorem depends on it.
use mathlib.Core.Path.{◌≡◌, refl}
use mathlib.Core.Logic.{◌⊎◌, inl, inr}
use mathlib.Core.Bool.{Bool, true, false}
use mathlib.Core.Option.{Option, none, some}
use mathlib.Core.List.{List, [], ◌∷◌, ◌++◌}
use native.Mathlib.Omega.{arith}
use nova_adapt.Base.Tests.{if◌then◌else◌, Bool-cases}
use nova_adapt.Base.Lists.{All, count}

abbrev pub first {ℓ} : {A : Type ℓ} → List A → Option A
first [] = none
first (x ∷ xs) = some x

module _ {ℓ} {A : Type ℓ} (le : A → A → Bool) where
  unfoldable pub insert_sorted : A → List A → List A
  insert_sorted x [] = x ∷ []
  insert_sorted x (y ∷ ys) = if le x y then x ∷ y ∷ ys else y ∷ insert_sorted x ys

  unfoldable pub order_by : List A → List A
  unfolding insert_sorted
  order_by [] = []
  order_by (x ∷ xs) = insert_sorted x (order_by xs)

  abbrev pub IsSorted : List A → Type 0
  IsSorted [] = Unit
  IsSorted (x ∷ xs) = All (λ y. le x y ≡ true) xs × IsSorted xs

  pub All-insert_sorted {κ} :
      (P : A → Type κ) (x : A) (xs : List A) → P x → All P xs → All P (insert_sorted x xs)
  unfolding insert_sorted
  All-insert_sorted P x [] p h = (p, tt)
  All-insert_sorted P x (y ∷ ys) p h = elim (Bool-cases (le x y)) [
    | inl before ↦ rw before (p, h)
    | inr after ↦ rw after (h.0, All-insert_sorted P x ys p h.1)
  ]

  pub All-order_by {κ} : (P : A → Type κ) (xs : List A) → All P xs → All P (order_by xs)
  unfolding order_by
  All-order_by P [] h = tt
  All-order_by P (x ∷ xs) h = All-insert_sorted P x (order_by xs) h.0 (All-order_by P xs h.1)

  All-of_insert_sorted {κ} :
      (P : A → Type κ) (x : A) (xs : List A) → All P (insert_sorted x xs) → P x × All P xs
  unfolding insert_sorted
  All-of_insert_sorted P x [] h = h
  All-of_insert_sorted P x (y ∷ ys) h = elim (Bool-cases (le x y)) [
    | inl before ↦ let h' : P x × All P (y ∷ ys) = rw before at h in h'
    | inr after ↦
        let h' : P y × All P (insert_sorted x ys) = rw after at h in
        let rest = All-of_insert_sorted P x ys h'.1 in (rest.0, (h'.0, rest.1))
  ]

  -- ORDER BY loses no row.
  pub All-of_order_by {κ} : (P : A → Type κ) (xs : List A) → All P (order_by xs) → All P xs
  unfolding order_by
  All-of_order_by P [] h = tt
  All-of_order_by P (x ∷ xs) h =
      let both = All-of_insert_sorted P x (order_by xs) h in (both.0, All-of_order_by P xs both.1)

  first-insert_sorted : (x : A) (xs : List A) → ¬ (first (insert_sorted x xs) ≡ none)
  unfolding insert_sorted
  first-insert_sorted x [] h = cc
  first-insert_sorted x (y ∷ ys) h = ground arith

  pub first-none : (xs : List A) → first (order_by xs) ≡ none → xs ≡ []
  unfolding order_by
  first-none [] h = refl
  first-none (x ∷ xs) h = absurd (first-insert_sorted x (order_by xs) h)

  count-insert_sorted :
      (p : A → Bool) (x : A) (xs : List A) → count p (insert_sorted x xs) ≡ count p (x ∷ xs)
  unfolding insert_sorted
  count-insert_sorted p x [] = refl
  count-insert_sorted p x (y ∷ ys) = ground (arith, count-insert_sorted p x ys)

  pub count-order_by : (p : A → Bool) (xs : List A) → count p (order_by xs) ≡ count p xs
  unfolding order_by
  count-order_by p [] = refl
  count-order_by p (x ∷ xs) =
      ground (arith, count-insert_sorted p x (order_by xs), count-order_by p xs)

  module _ (total : (x y : A) → (le x y ≡ true) ⊎ (le y x ≡ true))
      (trans : (x y z : A) → le x y ≡ true → le y z ≡ true → le x z ≡ true) where
    All-trans :
        (x y : A) (ys : List A)
        → le x y ≡ true
        → All (λ z. le y z ≡ true) ys
        → All (λ z. le x z ≡ true) ys
    All-trans x y [] h k = tt
    All-trans x y (z ∷ zs) h k = (trans x y z h k.0, All-trans x y zs h k.1)

    insert_sorted-IsSorted : (x : A) (xs : List A) → IsSorted xs → IsSorted (insert_sorted x xs)
    unfolding insert_sorted
    insert_sorted-IsSorted x [] h = (tt, tt)
    insert_sorted-IsSorted x (y ∷ ys) h = elim (Bool-cases (le x y)) [
      | inl before ↦ rw before ((before, All-trans x y ys before h.0), h)
      | inr after ↦
          let back : le y x ≡ true = ground (arith, total x y) in
          rw after
            (All-insert_sorted (λ z. le y z ≡ true) x ys back h.0, insert_sorted-IsSorted x ys h.1)
    ]

    pub order_by-IsSorted : (xs : List A) → IsSorted (order_by xs)
    unfolding order_by
    order_by-IsSorted [] = tt
    order_by-IsSorted (x ∷ xs) = insert_sorted-IsSorted x (order_by xs) (order_by-IsSorted xs)

  -- An element that stands behind none of those before it comes first.
  pub first-order_by :
      (xs : List A) (x : A)
      → All (λ y. le y x ≡ false) xs
      → first (order_by (xs ++ x ∷ [])) ≡ some x
  unfolding order_by
  first-order_by [] x h = refl
  first-order_by (y ∷ ys) x h = ground (arith, first-order_by ys x h.1)
