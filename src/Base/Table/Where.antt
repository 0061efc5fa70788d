-- ===== src/Base/Table/Where.antt =====
-- DELETE … WHERE a condition on the columns holds, and how many rows it hits.
use mathlib.Core.Path.{◌≡◌}
use mathlib.Core.Bool.{Bool, false, not}
use mathlib.Core.Option.{some, none}
use mathlib.Core.List.{List, [], ◌∷◌}
use native.Mathlib.Omega.{arith}
use nova_adapt.Base.Lists.{filter}
use nova_adapt.Base.Interface.{Eq}
use nova_adapt.Base.Table

abbrev pub delete_where {ℓ} : {R : Type ℓ} → (R → Bool) → List R → List R
delete_where p rows = filter (λ r. not (p r)) rows

-- A row that the condition spares is still found.
pub select-delete_where {ℓ} :
    {R K : Type ℓ} ⦃e : Eq K⦄ (key : R → K) (p : R → Bool) (k : K) (rows : List R) (r : R)
    → Table.select key k rows ≡ some r
    → p r ≡ false
    → Table.select key k (delete_where p rows) ≡ some r
unfolding Table.select
select-delete_where key p k [] r h spared = ground arith
select-delete_where key p k (x ∷ rows) r h spared =
    ground (arith, select-delete_where key p k rows r)

pub select-none-delete_where {ℓ} :
    {R K : Type ℓ} ⦃e : Eq K⦄ (key : R → K) (p : R → Bool) (k : K) (rows : List R)
    → Table.select key k rows ≡ none
    → Table.select key k (delete_where p rows) ≡ none
unfolding Table.select
select-none-delete_where key p k [] h = h
select-none-delete_where key p k (x ∷ rows) h =
    ground (arith, select-none-delete_where key p k rows)
