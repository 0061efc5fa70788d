-- ===== src/Plans/UndoQueue/Marked.antt =====
-- What is found in the log after some of its rows were marked.
use nova_adapt.Base.{
  ℕ, Bool, true, ◌==◌, ◌≡◌, refl, ap, sym, subst, Option, none, some, List, [], ◌∷◌, arith, any,
  Bool-cases, Option-cases, inl, inr, if◌then◌else◌, nat_eq,
}
use nova_adapt.Base.Table
use nova_adapt.Plans.UndoQueue.{UndoQueue, Action, key, mark_undone, undo_found, get}

abbrev pub flagged : Action → Action
flagged a = record a { undone = true }

-- What was found, marked if the test holds.
abbrev pub flag_if : Bool → Option Action → Option Action
flag_if b none = none
flag_if b (some a) = some (if b then flagged a else a)

-- A row that is marked does not change by being marked.
flagged-done : (a : Action) → a.undone ≡ true → flagged a ≡ a
flagged-done a h = ground arith

-- A select after an update of the row `id`.
flag-select :
    (id j : ℕ) (rows : List Action)
    → Table.select key j (Table.update key id flagged rows)
      ≡ flag_if (id == j) (Table.select key j rows)
flag-select id j rows =
    let found = Table.select-update key id j flagged rows (λ _. refl) in
    elim (Option-cases (Table.select key j rows)) [
      | inl missing ↦ rw missing (ground (arith, found, missing))
      | inr (y, has) ↦ rw has (elim (Bool-cases (id == j)) [
        | inl same ↦ rw same (ground (arith, found, has, same))
        | inr other ↦ rw other (ground (arith, found, has, other))
      ])
    ]

-- A select where the row `id` is marked already, or missing.
flag-same :
    (id j : ℕ) (rows : List Action)
    → flag_if true (Table.select key id rows) ≡ Table.select key id rows
    → Table.select key j rows ≡ flag_if (id == j) (Table.select key j rows)
flag-same id j rows h = elim (Bool-cases (id == j)) [
  | inl same ↦
      let e : id ≡ j = (nat_eq.beq_iff id j).0 same in
      rw same
        (subst (λ k. Table.select key k rows ≡ flag_if true (Table.select key k rows)) e (sym h))
  | inr other ↦ rw other (elim (Option-cases (Table.select key j rows)) [
    | inl missing ↦ rw missing refl
    | inr (y, has) ↦ rw has refl
  ])
]

get-mark_undone :
    (id j : ℕ) (q : UndoQueue) → get j (mark_undone id q).1 ≡ flag_if (id == j) (get j q)
unfolding mark_undone undo_found get
get-mark_undone id j q = elim (Option-cases (Table.select key id q.rows)) [
  | inl gone ↦ rw gone (flag-same id j q.rows (rw gone refl))
  | inr (x, there) ↦ rw there (elim (Bool-cases x.undone) [
    | inl done ↦ rw done (flag-same id j q.rows (rw there (ap some (flagged-done x done))))
    | inr not_done ↦ rw not_done (flag-select id j q.rows)
  ])
]

unfoldable pub mark_all : List ℕ → UndoQueue → UndoQueue
mark_all [] q = q
mark_all (id ∷ ids) q = mark_all ids (mark_undone id q).1

-- After several rows were marked, each row is there as before, and marked if it is one of them.
pub get-mark_all :
    (ids : List ℕ) (j : ℕ) (q : UndoQueue)
    → get j (mark_all ids q) ≡ flag_if (any (λ id. id == j) ids) (get j q)
unfolding mark_all
get-mark_all [] j q = elim (Option-cases (get j q)) [
  | inl missing ↦ rw missing refl
  | inr (y, has) ↦ rw has refl
]
get-mark_all (id ∷ ids) j q =
    let first = get-mark_undone id j q in
    let rest = get-mark_all ids j (mark_undone id q).1 in
    elim (Option-cases (get j q)) [
      | inl missing ↦ rw missing (ground (arith, rest, first, missing))
      | inr (y, has) ↦ rw has (elim (Bool-cases (id == j)) [
        | inl same ↦ rw same (ground (arith, rest, first, has, same))
        | inr other ↦ rw other (ground (arith, rest, first, has, other))
      ])
    ]

pub mark_missing : (id : ℕ) (q : UndoQueue) → get id q ≡ none → (mark_undone id q).1 ≡ q
unfolding mark_undone undo_found
mark_missing id q gone = rw gone refl

pub mark_done :
    (id : ℕ) (q : UndoQueue) (a : Action)
    → get id q ≡ some a
    → a.undone ≡ true
    → (mark_undone id q).1 ≡ q
unfolding mark_undone undo_found
mark_done id q a there done = rw there (rw done refl)

pub id-get : (id : ℕ) (q : UndoQueue) (a : Action) → get id q ≡ some a → a.id ≡ id
unfolding get
id-get id q a there = Table.key-select key id q.rows a there
