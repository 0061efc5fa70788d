-- ===== src/Base/Table/Keys.antt =====
-- PRIMARY KEY: no two rows of a table have the same key, and the statements keep it so.
use mathlib.Core.Path.{◌≡◌, refl, ap, subst}
use mathlib.Core.Logic.{inl, inr}
use mathlib.Core.Option.{none, some}
use mathlib.Core.List.{List, [], ◌∷◌, ◌++◌}
use native.Mathlib.Omega.{arith}
use nova_adapt.Base.Tests.{Bool-cases, Option-cases}
use nova_adapt.Base.Lists.{All, All-imp}
use nova_adapt.Base.Interface.{Eq}
use nova_adapt.Base.Table.{select, update, insert, select-update, select-append}

module _ {ℓ} {R K : Type ℓ} ⦃e : Eq K⦄ (key : R → K) where
  abbrev pub Keyed : List R → Type ℓ
  Keyed [] = Unit
  Keyed (r ∷ rows) = (select key (key r) rows ≡ none) × Keyed rows

  -- Each row is the one that is found under its key.
  pub select_self : (rows : List R) → Keyed rows → All (λ r. select key (key r) rows ≡ some r) rows
  unfolding select
  select_self [] h = tt
  select_self (r ∷ rows) h = (
    rw ((e.beq_iff (key r) (key r)).1 refl),
    All-imp rows
        (λ x found. elim (Bool-cases (e.beq (key r) (key x))) [
          | inl same ↦
              let k : key r ≡ key x = (e.beq_iff (key r) (key x)).0 same in
              cc (h.0, ap (λ y. select key y rows) k)
          | inr other ↦ ground arith
        ])
        (select_self rows h.1),
  )

  pub Keyed-update :
      (k : K) (f : R → R) (rows : List R)
      → ((r : R) → key (f r) ≡ key r)
      → Keyed rows
      → Keyed (update key k f rows)
  unfolding update
  Keyed-update k f [] keep h = tt
  Keyed-update k f (r ∷ rows) keep h = elim (Bool-cases (e.beq (key r) k)) [
    | inl same ↦ rw same (
      rw keep (ground (arith, select-update key k (key r) f rows keep)),
      Keyed-update k f rows keep h.1,
    )
    | inr other ↦
        rw other
          (ground (arith, select-update key k (key r) f rows keep), Keyed-update k f rows keep h.1)
  ]

  pub Keyed-append :
      (rows : List R) (r : R) → select key (key r) rows ≡ none → Keyed rows → Keyed (rows ++ r ∷ [])
  unfolding select
  Keyed-append [] r free h = (refl, tt)
  Keyed-append (x ∷ rows) r free h = (
    ground (
      arith,
      select-append key (key x) rows r,
      e.beq_iff (key x) (key r),
      e.beq_iff (key r) (key x),
    ),
    Keyed-append rows r (ground arith) h.1,
  )

  pub Keyed-insert :
      (r : R) (rows : List R) {rows' : List R}
      → insert key r rows ≡ some rows'
      → Keyed rows
      → Keyed rows'
  unfolding insert
  Keyed-insert r rows h keyed = elim (Option-cases (select key (key r) rows)) [
    | inl free ↦
        let done : rows ++ r ∷ [] ≡ _ = ground arith in
        subst Keyed done (Keyed-append rows r free keyed)
    | inr (x, taken) ↦ absurd (ground arith)
  ]
