-- ===== src/Base/Table/Distinct.antt =====
-- Rows with pairwise different keys, through WHERE and ORDER BY.
use mathlib.Core.Path.{◌≡◌}
use mathlib.Core.Logic.{inl, inr}
use mathlib.Core.Bool.{Bool, false}
use mathlib.Core.Option.{none}
use mathlib.Core.List.{List, [], ◌∷◌}
use native.Mathlib.Omega.{arith}
use nova_adapt.Base.Tests.{Bool-cases}
use nova_adapt.Base.Lists.{All, All-filter_self, filter}
use nova_adapt.Base.Interface.{Eq}
use nova_adapt.Base.Order.{order_by, insert_sorted, All-insert_sorted, All-order_by}
use nova_adapt.Base.Table.{select}
use nova_adapt.Base.Table.Keys.{Keyed}

module _ {ℓ} {R K : Type ℓ} ⦃e : Eq K⦄ (key : R → K) where
  abbrev pub Differs : R → R → Type 0
  Differs r x = e.beq (key r) (key x) ≡ false

  abbrev pub Distinct : List R → Type 0
  Distinct [] = Unit
  Distinct (r ∷ rows) = All (Differs r) rows × Distinct rows

  pub Differs-sym : (r x : R) → Differs r x → Differs x r
  Differs-sym r x h = ground (arith, e.beq_iff (key r) (key x), e.beq_iff (key x) (key r))

  absent-Differs : (r : R) (rows : List R) → select key (key r) rows ≡ none → All (Differs r) rows
  unfolding select
  absent-Differs r [] h = tt
  absent-Differs r (x ∷ rows) h =
      (Differs-sym x r (ground arith), absent-Differs r rows (ground arith))

  pub Keyed-Distinct : (rows : List R) → Keyed key rows → Distinct rows
  Keyed-Distinct [] h = tt
  Keyed-Distinct (r ∷ rows) h = (absent-Differs r rows h.0, Keyed-Distinct rows h.1)

  pub Distinct-filter : (p : R → Bool) (rows : List R) → Distinct rows → Distinct (filter p rows)
  Distinct-filter p [] h = tt
  Distinct-filter p (r ∷ rows) h = elim (Bool-cases (p r)) [
    | inl kept ↦ rw kept (All-filter_self (Differs r) p rows h.0, Distinct-filter p rows h.1)
    | inr dropped ↦ rw dropped (Distinct-filter p rows h.1)
  ]

  Distinct-insert_sorted :
      (le : R → R → Bool) (r : R) (rows : List R)
      → All (Differs r) rows
      → Distinct rows
      → Distinct (insert_sorted le r rows)
  unfolding insert_sorted
  Distinct-insert_sorted le r [] a h = (tt, tt)
  Distinct-insert_sorted le r (x ∷ rows) a h = elim (Bool-cases (le r x)) [
    | inl before ↦ rw before (a, h)
    | inr after ↦ rw after (
      All-insert_sorted le (Differs x) r rows (Differs-sym r x a.0) h.0,
      Distinct-insert_sorted le r rows a.1 h.1,
    )
  ]

  pub Distinct-order_by :
      (le : R → R → Bool) (rows : List R) → Distinct rows → Distinct (order_by le rows)
  unfolding order_by
  Distinct-order_by le [] h = tt
  Distinct-order_by le (r ∷ rows) h =
      Distinct-insert_sorted le r (order_by le rows) (All-order_by le (Differs r) rows h.0)
        (Distinct-order_by le rows h.1)
