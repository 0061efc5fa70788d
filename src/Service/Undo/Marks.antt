-- ===== src/Service/Undo/Marks.antt =====
-- What `undo_plan` does to the log when it only marks.
use nova_adapt.Base.{
  ℕ, String, Bool, true, ◌||◌, ◌==◌, ◌≡◌, refl, ◌∙◌, ap, sym, Option, none, some, List, [], ◌∷◌,
  arith, any, Bool-cases, inl, inr, nat_eq,
}
use mathlib.Core.List.{reverse, reverse_aux}
use nova_adapt.Base.Json.{Fields}
use nova_adapt.Base.Exec.{ok, ◌>>=◌, pure}
use nova_adapt.Base.Exec.Preserves.{bind_ok}
use nova_adapt.Plans.PlanStore
use nova_adapt.Plans.PlanStore.{PlanRecord}
use nova_adapt.Plans.UndoQueue
use nova_adapt.Plans.UndoQueue.{UndoQueue, Action, key, mark_undone}
use nova_adapt.Plans.UndoQueue.Marked.{
  mark_all, flag_if, get-mark_all, mark_missing, mark_done, id-get,
}
use nova_adapt.Service.Actions.{Outside, Service, ingest_control}
use nova_adapt.Service.Undo.{
  UndoRequest, undo, undo_one, undo_item, undo_pending, undo_each, undo_plan, undo_logged,
  undo_found, mark, entry, marked_result, ok_entry, error_entry, already_text, report,
}

any-reverse_aux : (p : ℕ → Bool) (xs r : List ℕ) → any p (reverse_aux xs r) ≡ (any p xs || any p r)
any-reverse_aux p [] r = refl
any-reverse_aux p (x ∷ xs) r = ground (arith, any-reverse_aux p xs (x ∷ r))

any-reverse : (p : ℕ → Bool) (xs : List ℕ) → any p (reverse xs) ≡ any p xs
any-reverse p xs = ground (arith, any-reverse_aux p xs [])

module _ {W : Type 0} (o : Outside W) (execute : Bool) where
  abbrev marked : ℕ → Service W → Service W
  marked id s = record s { queue = (mark_undone id s.queue).1 }

  abbrev request : ℕ → UndoRequest
  request id = record { id = some id; mark_only = true; execute = execute }

  pending-mark :
      (id item_id : ℕ) (s : Service W) (u : Option Fields)
      → item_id ≡ id
      → undo_pending o (request id) item_id u s ≡ (ok (marked_result item_id), marked id s)
  unfolding undo_pending mark
  pending-mark id item_id s none same = rw same refl
  pending-mark id item_id s (some action) same = rw same refl

  -- Marked or not, the row is marked afterwards, and the answer is an entry of the results.
  item-mark :
      (id : ℕ) (s : Service W) (found : Option Action)
      → UndoQueue.get id s.queue ≡ found
      → (x : Fields) × (entry o id (undo_item o (request id) found s).0 ≡ ok x)
        × ((undo_item o (request id) found s).1 ≡ marked id s)
  unfolding undo_item entry
  item-mark id s none gone =
      (_, refl, ap (λ q. record s { queue = q }) (sym (mark_missing id s.queue gone)))
  item-mark id s (some a) there = elim (Bool-cases a.undone) [
    | inl done ↦
        let same = ap (λ q. record s { queue = q }) (sym (mark_done id s.queue a there done)) in
        (error_entry id (already_text a.id), rw (done, undo_item) refl, rw (done, undo_item) same)
    | inr not_done ↦
        let e = pending-mark id a.id s a.undo_action (id-get id s.queue a there) in
        (
          ok_entry id (marked_result a.id),
          rw (not_done, undo_item) (ap (λ x. entry o id x.0) e),
          rw (not_done, undo_item) (ap (λ x. x.1) e),
        )
  ]

  undo_one-mark :
      (id : ℕ) (s : Service W) → (x : Fields) × (undo_one o execute true id s ≡ (ok x, marked id s))
  unfolding undo
  undo_one-mark id s =
      let (x, e, e') = item-mark id s (UndoQueue.get id s.queue) refl in (x, ground (arith, e, e'))

  abbrev all_marked : List ℕ → Service W → Service W
  all_marked ids s = record s { queue = mark_all ids s.queue }

  undo_each-mark :
      (ids : List ℕ) (s : Service W)
      → (xs : List Fields) × (undo_each o execute true ids s ≡ (ok xs, all_marked ids s))
  unfolding undo_each mark_all
  undo_each-mark [] s = ([], refl)
  undo_each-mark (id ∷ ids) s =
      let (x, first) = undo_one-mark id s in
      let (xs, rest) = undo_each-mark ids (marked id s) in
      (
        x ∷ xs,
        bind_ok (undo_one o execute true id)
              (λ one. undo_each o execute true ids >>= λ rest. pure (one ∷ rest)) s (marked id s) x
              first
            ∙ bind_ok (undo_each o execute true ids) (λ rest. pure (x ∷ rest)) (marked id s)
                (all_marked ids (marked id s)) xs rest,
      )

  -- `undo_plan` with `mark_only`, on a stored plan with a log, returns. The state outside of the service is
  -- then as the memory leaves it that was handed the answer once, and nothing else: this holds for any
  -- executors, also for some that count their calls, so none is run. No plan is changed, and in the log each
  -- row is found as before, now marked as undone if its identifier is one of the plan's and otherwise as it
  -- was.
  pub undo_plan_marks :
      (plan_id : String) (s : Service W) (p : PlanRecord) (id : ℕ) (ids : List ℕ)
      → PlanStore.get plan_id s.plans ≡ some p
      → p.action_log_ids ≡ some (id ∷ ids)
      → let (answer, s') = undo_plan o plan_id execute true s in
        ((x : Fields) × (answer ≡ ok x)
          × (s'.outer ≡ o.remember (ingest_control "plan_undo" x ("plan.undo" ∷ [])) s.outer))
        × (s'.plans ≡ s.plans)
        × ((j : ℕ)
            → UndoQueue.get j s'.queue
              ≡ flag_if (any (λ i. i == j) (id ∷ ids)) (UndoQueue.get j s.queue))
  unfolding undo_plan undo_found undo_logged
  undo_plan_marks plan_id s p id ids there logged =
      let (xs, e) = undo_each-mark (reverse (id ∷ ids)) s in
      let s1 = all_marked (reverse (id ∷ ids)) s in
      let ends =
        bind_ok (undo_each o execute true (reverse (id ∷ ids))) (report o plan_id execute true) s s1
          xs e in
      rw there (
        rw logged (
          rw ends (
            (_, refl, refl),
            refl,
            λ j.
                get-mark_all (reverse (id ∷ ids)) j s.queue
                ∙ ap (λ b. flag_if b (UndoQueue.get j s.queue))
                    (any-reverse (λ i. i == j) (id ∷ ids)),
          )))
