-- ===== src/Base/Table.antt =====
-- A SQLite table with a primary key: its rows in the order of insertion, and the statements that the
-- stores issue. `key` reads the primary key off a row.
pub mod Keys
pub mod Distinct
pub mod Where
use mathlib.Core.Path.{◌≡◌, refl, ap, subst}
use mathlib.Core.Logic.{inl, inr}
use mathlib.Core.Bool.{Bool}
use mathlib.Core.Option
use mathlib.Core.Option.{Option, none, some}
use mathlib.Core.List.{List, [], ◌∷◌, ◌++◌}
use native.Mathlib.Omega.{arith}
use nova_adapt.Base.Tests.{if◌then◌else◌, is_some, Bool-cases}
use nova_adapt.Base.Lists.{All, filter}
use nova_adapt.Base.Interface.{Eq}

module _ {ℓ} {R K : Type ℓ} ⦃e : Eq K⦄ (key : R → K) where
  -- SELECT … WHERE key = k
  unfoldable pub select : K → List R → Option R
  select k [] = none
  select k (r ∷ rows) = if e.beq (key r) k then some r else select k rows

  -- UPDATE … WHERE key = k
  unfoldable pub update : K → (R → R) → List R → List R
  update k f [] = []
  update k f (r ∷ rows) = (if e.beq (key r) k then f r else r) ∷ update k f rows

  -- DELETE … WHERE key = k
  unfoldable pub delete : K → List R → List R
  delete k [] = []
  delete k (r ∷ rows) = let rest = delete k rows in if e.beq (key r) k then rest else r ∷ rest

  -- INSERT; `none` is the IntegrityError on a key that is taken.
  unfoldable pub insert : R → List R → Option (List R)
  insert r rows = if is_some (select (key r) rows) then none else some (rows ++ r ∷ [])

  -- INSERT … ON CONFLICT(key) DO UPDATE, with the columns that `f` sets on the old row.
  unfoldable pub upsert : R → (R → R) → List R → List R
  upsert r f rows = if is_some (select (key r) rows) then update (key r) f rows else rows ++ r ∷ []

  pub key-select : (k : K) (rows : List R) (r : R) → select k rows ≡ some r → key r ≡ k
  unfolding select
  key-select k [] r h = cc
  key-select k (x ∷ rows) r h = ground (arith, key-select k rows r, e.beq_iff (key x) k)

  pub select-update :
      (k j : K) (f : R → R) (rows : List R)
      → ((r : R) → key (f r) ≡ key r)
      → select j (update k f rows)
        ≡ (if e.beq k j then Option.map f (select j rows) else select j rows)
  unfolding select update
  select-update k j f [] keep = ground arith
  select-update k j f (r ∷ rows) keep = ground (
    arith,
    keep r,
    select-update k j f rows keep,
    e.beq_iff (key r) k,
    e.beq_iff (key r) j,
    e.beq_iff k j,
    e.beq_iff (key (f r)) j,
  )

  pub select-delete :
      (k j : K) (rows : List R)
      → select j (delete k rows) ≡ (if e.beq k j then none else select j rows)
  unfolding select delete
  select-delete k j [] = ground arith
  select-delete k j (r ∷ rows) =
      ground
        (arith, select-delete k j rows, e.beq_iff (key r) k, e.beq_iff (key r) j, e.beq_iff k j)

  pub select-append :
      (j : K) (rows : List R) (r : R)
      → select j (rows ++ r ∷ [])
        ≡ elim (select j rows) [ some x ↦ some x | none ↦ if e.beq (key r) j then some r else none ]
  unfolding select
  select-append j [] r = refl
  select-append j (x ∷ rows) r = ground (arith, select-append j rows r)

  -- After a successful INSERT the new row is found under its key, and no other key is touched.
  pub select-insert :
      (j : K) (r : R) (rows : List R) {rows' : List R}
      → insert r rows ≡ some rows'
      → select j rows' ≡ (if e.beq (key r) j then some r else select j rows)
  unfolding insert
  select-insert j r rows h = elim (Bool-cases (e.beq (key r) j)) [
    | inl same ↦
        let k : key r ≡ j = (e.beq_iff (key r) j).0 same in
        ground (arith, select-append j rows r, ap (λ x. select x rows) k)
    | inr other ↦ ground (arith, select-append j rows r)
  ]

  pub insert-taken :
      (r old : R) (rows : List R) → select (key r) rows ≡ some old → insert r rows ≡ none
  unfolding insert
  insert-taken r old rows h = rw h

  pub insert-fresh :
      (r : R) (rows : List R) → select (key r) rows ≡ none → insert r rows ≡ some (rows ++ r ∷ [])
  unfolding insert
  insert-fresh r rows h = rw h

  pub select-upsert :
      (j : K) (r : R) (f : R → R) (rows : List R)
      → ((x : R) → key (f x) ≡ key x)
      → select j (upsert r f rows) ≡ (
          if e.beq (key r) j
          then some (elim (select (key r) rows) [ some x ↦ f x | none ↦ r ])
          else select j rows)
  unfolding upsert
  select-upsert j r f rows keep = elim (Bool-cases (e.beq (key r) j)) [
    | inl same ↦
        let k : key r ≡ j = (e.beq_iff (key r) j).0 same in
        ground (
          arith,
          select-append j rows r,
          select-update (key r) j f rows keep,
          ap (λ x. select x rows) k,
        )
    | inr other ↦ ground (arith, select-append j rows r, select-update (key r) j f rows keep)
  ]

  -- What each row satisfies, and a write to one row keeps, each row satisfies afterwards.
  pub All-update {κ} :
      (P : R → Type κ) (k : K) (f : R → R) (rows : List R)
      → ((r : R) → P r → P (f r))
      → All P rows
      → All P (update k f rows)
  unfolding update
  All-update P k f [] keep h = tt
  All-update P k f (r ∷ rows) keep h = elim (Bool-cases (e.beq (key r) k)) [
    | inl same ↦ rw same (keep r h.0, All-update P k f rows keep h.1)
    | inr other ↦ rw other (h.0, All-update P k f rows keep h.1)
  ]

  pub All-select {κ} :
      (P : R → Type κ) (k : K) (rows : List R) (r : R) → All P rows → select k rows ≡ some r → P r
  unfolding select
  All-select P k [] r h q = cc
  All-select P k (x ∷ rows) r h q = elim (Bool-cases (e.beq (key x) k)) [
    | inl same ↦ let p : x ≡ r = ground arith in subst P p h.0
    | inr other ↦ All-select P k rows r h.1 (ground arith)
  ]

  pub All-delete {κ} : (P : R → Type κ) (k : K) (rows : List R) → All P rows → All P (delete k rows)
  unfolding delete
  All-delete P k [] h = tt
  All-delete P k (r ∷ rows) h = elim (Bool-cases (e.beq (key r) k)) [
    | inl same ↦ rw same (All-delete P k rows h.1)
    | inr other ↦ rw other (h.0, All-delete P k rows h.1)
  ]

  pub All-filter-delete {κ} :
      (P : R → Type κ) (p : R → Bool) (k : K) (rows : List R)
      → All P (filter p rows)
      → All P (filter p (delete k rows))
  unfolding delete
  All-filter-delete P p k [] h = tt
  All-filter-delete P p k (r ∷ rows) h = elim (Bool-cases (p r)) [
    | inl kept ↦
        let h' : P r × All P (filter p rows) = rw kept at h in
        elim (Bool-cases (e.beq (key r) k)) [
          | inl same ↦ rw same (All-filter-delete P p k rows h'.1)
          | inr other ↦ rw other (rw kept (h'.0, All-filter-delete P p k rows h'.1))
        ]
    | inr dropped ↦
        let h' : All P (filter p rows) = rw dropped at h in
        elim (Bool-cases (e.beq (key r) k)) [
          | inl same ↦ rw same (All-filter-delete P p k rows h')
          | inr other ↦ rw other (rw dropped (All-filter-delete P p k rows h'))
        ]
  ]
