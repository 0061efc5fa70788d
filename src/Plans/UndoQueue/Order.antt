-- ===== src/Plans/UndoQueue/Order.antt =====
-- Which action is undone next.
use nova_adapt.Base.{
  ℕ, suc, ◌≤◌, ◌<◌, String, Bool, true, false, not, ◌≡◌, refl, ap, ◌∙◌, Option, none, some, List,
  [], ◌∷◌, ◌++◌, arith, All, All-append, All-imp, filter, filter-append, All-filter_self, nat_eq,
  beq_refl, Option-cases, Bool-cases, inl, inr,
}
use nova_adapt.Base.Json.{Fields}
use nova_adapt.Base.Table
use nova_adapt.Base.Order.{order_by, first, first-order_by}
use nova_adapt.Plans.UndoQueue.{
  Action, UndoQueue, key, logged, record_action, get, mark_undone, undo_found, latest_first,
  latest_pending,
}

-- No row has an identifier that is still to be given.
abbrev pub IsNumbered : UndoQueue → Type 0
IsNumbered q = All (λ a. a.id ≤ q.last_id) q.rows

pub record_action-IsNumbered :
    (now : ℕ) (action : Fields) (status : String) (undo : Option Fields) (q : UndoQueue)
    → IsNumbered q
    → IsNumbered (record_action now action status undo q).1
unfolding record_action
record_action-IsNumbered now action status undo q h =
    let a = logged now (suc q.last_id) action status undo in
    All-append (λ x. x.id ≤ suc q.last_id) q.rows (a ∷ []) (All-imp q.rows (λ x le. omega arith) h)
      (omega arith, tt)

append_nil : {A : Type 0} (xs : List A) → xs ++ [] ≡ xs
append_nil [] = refl
append_nil (x ∷ xs) = ap (◌∷◌ x) (append_nil xs)

select_beyond :
    (id : ℕ) (rows : List Action) → All (λ a. a.id < id) rows → Table.select key id rows ≡ none
unfolding Table.select
select_beyond id [] h = refl
select_beyond id (a ∷ rows) h = ground (arith, select_beyond id rows h.1, h.0)

update_beyond :
    (id : ℕ) (f : Action → Action) (rows : List Action) (a : Action)
    → All (λ x. x.id < id) rows
    → a.id ≡ id
    → Table.update key id f (rows ++ a ∷ []) ≡ rows ++ f a ∷ []
unfolding Table.update
update_beyond id f [] a h is_id = ground arith
update_beyond id f (x ∷ rows) a h is_id = ground (arith, update_beyond id f rows a h.1 is_id, h.0)

abbrev undone_of : Action → Action
undone_of a = record a { undone = true }

module _ (now : ℕ) (action : Fields) (status : String) (undo : Option Fields) (q : UndoQueue)
    (numbered : IsNumbered q) where
  abbrev id : ℕ
  id = (record_action now action status undo q).0

  abbrev new_action : Action
  new_action = logged now (suc q.last_id) action status undo

  abbrev next : UndoQueue
  next = (record_action now action status undo q).1

  below : All (λ a. a.id < suc q.last_id) q.rows
  below = All-imp q.rows (λ a le. omega arith) numbered

  latest-record : latest_pending next ≡ some new_action
  unfolding latest_pending record_action
  latest-record =
      let p : Action → Bool = λ a. not a.undone in
      rw (filter-append p q.rows (new_action ∷ [])) (
        first-order_by latest_first (filter p q.rows) new_action (
          All-imp (filter p q.rows) (λ a lt. ground arith)
            (All-filter_self (λ a. a.id < suc q.last_id) p q.rows below)))

  get-record : get id next ≡ some new_action
  unfolding get record_action
  get-record = ground (
    arith,
    Table.select-append key (suc q.last_id) q.rows new_action,
    select_beyond (suc q.last_id) q.rows below,
  )

  mark-record :
      mark_undone id next
      ≡ (true, record q { rows = q.rows ++ undone_of new_action ∷ []; last_id = suc q.last_id })
  unfolding mark_undone record_action
  mark-record =
      rw get-record (rw (update_beyond (suc q.last_id) undone_of q.rows new_action below refl) refl)

  -- An action that is recorded in a queue whose identifiers were given in order is the next to undo;
  -- once it is marked as undone, the next to undo is the one that was before it.
  pub undo_is_lifo :
      (latest_pending next ≡ some new_action)
      × ((mark_undone id next).0 ≡ true)
      × (latest_pending (mark_undone id next).1 ≡ latest_pending q)
  unfolding latest_pending
  undo_is_lifo = (
    latest-record,
    rw mark-record refl,
    rw mark-record (
        ap (λ rows. first (order_by latest_first rows))
          (filter-append (λ a. not a.undone) q.rows (undone_of new_action ∷ [])
            ∙ append_nil (filter (λ a. not a.undone) q.rows))),
  )

-- An action is undone once: of two calls of `mark_undone` for one identifier, the second is refused and
-- changes nothing.
pub undone_once :
    (action_id : ℕ) (q : UndoQueue)
    → let q1 = (mark_undone action_id q).1 in mark_undone action_id q1 ≡ (false, q1)
unfolding mark_undone get undo_found
undone_once action_id q =
    let flag : Action → Action = λ x. record x { undone = true } in
    elim (Option-cases (Table.select key action_id q.rows)) [
      | inl gone ↦ rw gone (rw gone refl)
      | inr (a, there) ↦ rw there (elim (Bool-cases a.undone) [
        | inl already ↦ rw already (rw there (rw already refl))
        | inr waiting ↦
            let found : Table.select key action_id (Table.update key action_id flag q.rows)
                ≡ some (flag a) =
              ground (
                arith,
                Table.select-update key action_id action_id flag q.rows (λ x. refl),
                there,
                beq_refl action_id,
              ) in
            rw waiting (rw found refl)
      ])
    ]
