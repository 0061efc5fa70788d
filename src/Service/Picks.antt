-- ===== src/Service/Picks.antt =====
-- Which actions `retry_failed_only` runs again.
use nova_adapt.Base.{
  ℕ, zero, suc, ◌+◌, String, ◌≡◌, refl, ap, subst, some, List, [], ◌∷◌, arith, length, get_elem?,
  Bool-cases, inl, inr, if◌then◌else◌,
}
use nova_adapt.Base.Json.{Fields, Value}
use nova_adapt.Service.Admit.{to_retry, retry_indexes, pick}

-- The elements of `xs` from the place `n` on.
abbrev from : {A : Type 0} → List A → ℕ → List A
from [] n = []
from (x ∷ xs) zero = x ∷ xs
from (x ∷ xs) (suc n) = from xs n

from_start : {A : Type 0} (xs : List A) → from xs 0 ≡ xs
from_start [] = refl
from_start (x ∷ xs) = refl

from-get :
    {A : Type 0} (xs : List A) (n : ℕ) (y : A) (ys : List A)
    → from xs n ≡ y ∷ ys
    → (get_elem? xs n ≡ some y) × (from xs (suc n) ≡ ys)
from-get [] n y ys h = absurd (cc)
from-get (x ∷ xs) zero y ys h = (cc, cc (from_start xs))
from-get (x ∷ xs) (suc n) y ys h = from-get xs n y ys h

module _ (to_text : Value → String) where
  -- The actions whose result, in the same place, has failed or was blocked.
  abbrev pub failed_ones : (actions results : List Fields) → List Fields
  failed_ones [] results = []
  failed_ones (a ∷ actions) [] = []
  failed_ones (a ∷ actions) (r ∷ results) =
      let rest = failed_ones actions results in if to_retry to_text r then a ∷ rest else rest

  pick-from :
      (all_actions : List Fields) (n : ℕ) (actions results : List Fields)
      → from all_actions n ≡ actions
      → pick to_text all_actions (retry_indexes to_text n (length actions) results)
        ≡ failed_ones actions results
  unfolding pick retry_indexes
  pick-from all_actions n [] [] h = refl
  pick-from all_actions n [] (r ∷ results) h = refl
  pick-from all_actions n (a ∷ actions) [] h = refl
  pick-from all_actions n (a ∷ actions) (r ∷ results) h =
      let (here, after) = from-get all_actions n a actions h in
      let next : suc n ≡ n + 1 = omega arith in
      let rest =
        pick-from all_actions (n + 1) actions results
          (subst (λ k. from all_actions k ≡ actions) next after) in
      elim (Bool-cases (to_retry to_text r)) [
        | inl bad ↦ rw bad (rw (here, pick) (ap (λ l. a ∷ l) rest))
        | inr good ↦ rw good rest
      ]

  -- The indexes that `approve_plan` collects from the prior results pick exactly the actions whose
  -- result, in the same place, has failed or was blocked, in their order; results without an action and
  -- actions without a result are passed over.
  pub retry_picks :
      (actions results : List Fields)
      → pick to_text actions (retry_indexes to_text 0 (length actions) results)
        ≡ failed_ones actions results
  retry_picks [] results = pick-from [] 0 [] results refl
  retry_picks (a ∷ actions) results = pick-from (a ∷ actions) 0 (a ∷ actions) results refl
