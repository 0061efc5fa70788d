-- ===== src/Service/Retries.antt =====
-- How often an action is executed.
use nova_adapt.Base.{
  ℕ, zero, suc, ◌+◌, ◌*◌, ◌≤◌, String, true, ◌≡◌, refl, List, [], ◌∷◌, arith, length, ltb,
  Bool-cases, inl, inr,
}
use nova_adapt.Base.Json.{Fields}
use nova_adapt.Base.Exec.{Result-cases, ◌>>=◌, ◌>>◌, pure}
use nova_adapt.Base.Exec.Preserves.{after-bind}
use nova_adapt.Plans.Policy.{PolicyDecision, evaluate}
use nova_adapt.Service.Routing.{Routed, execute_routed_action}
use nova_adapt.Service.Actions.{
  Outside, Service, Options, execute, log_action, check_cancel, back_off, retry, perform, is_ok,
  carry_out, undo_of, action_result,
}
use nova_adapt.Service.Approve.{Run, with_entry, save_progress, execute_actions}

module _ {W : Type 0} (o : Outside W) (runs : W → ℕ)
    (counts : (action : Fields) (w : W)
      → runs (execute_routed_action o.ex o.depth true action w).1 ≡ runs w + 1)
    (waits : (n : ℕ) (w : W) → runs (o.sleep n w) ≡ runs w) where
  abbrev AtMost : ℕ → Service W → Type 0
  AtMost n s = runs s.outer ≤ n

  check-same : (s : Service W) → (check_cancel o s).1 ≡ s
  check-same s = elim (Bool-cases (o.cancel_requested s.outer)) [
    | inl asked ↦ rw asked refl
    | inr other ↦ rw other refl
  ]

  runs-back_off :
      (backoff done : ℕ) (s : Service W) → runs (back_off o backoff done s).1.outer ≡ runs s.outer
  runs-back_off backoff zero s = refl
  runs-back_off backoff (suc done) s = elim (Bool-cases (ltb 0 backoff)) [
    | inl sleeps ↦ rw sleeps (waits _ s.outer)
    | inr other ↦ rw other refl
  ]

  AtMost-retry :
      (left backoff attempts : ℕ) (action : Fields) (routed : Routed) (n : ℕ) (s : Service W)
      → runs s.outer + left ≤ n
      → AtMost n (retry o left backoff attempts action routed s).1
  unfolding retry
  AtMost-retry zero backoff attempts action routed n s h = omega arith
  AtMost-retry (suc left) backoff attempts action routed n s h = elim (Bool-cases (is_ok routed)) [
    | inl good ↦ rw (good, retry) (omega arith)
    | inr again ↦
        rw (again, retry)
          (after-bind (AtMost n) (check_cancel o)
            (λ _. do
              back_off o backoff attempts
              next ← execute o action
              retry o left backoff (attempts + 1) action next)
            s
            (λ _ _. rw (check-same s) (
              after-bind (AtMost n) (back_off o backoff attempts)
                (λ _. do next ← execute o action; retry o left backoff (attempts + 1) action next) s
                (λ _ _.
                  after-bind (AtMost n) (execute o action)
                    (λ next. retry o left backoff (attempts + 1) action next)
                    (back_off o backoff attempts s).1
                    (λ next _.
                      AtMost-retry left backoff (attempts + 1) action next n
                        (execute o action (back_off o backoff attempts s).1).1
                        (ran attempts backoff s h))
                    (λ _ _. ground (arith, ran attempts backoff s h)))
                (λ _ _. ground (arith, runs-back_off backoff attempts s))))
            (λ _ _. rw (check-same s) (omega arith)))
  ]
    where
      ran :
          (attempts backoff : ℕ) (s : Service W)
          → runs s.outer + suc left ≤ n
          → runs (execute o action (back_off o backoff attempts s).1).1.outer + left ≤ n
      ran attempts backoff s h = ground (
        arith,
        counts action (back_off o backoff attempts s).1.outer,
        runs-back_off backoff attempts s,
      )

  AtMost-carry_out :
      (opts : Options) (d : PolicyDecision) (action : Fields) (n : ℕ) (s : Service W)
      → runs s.outer + (opts.retries + 1) ≤ n
      → AtMost n (carry_out o opts d action s).1
  unfolding log_action
  AtMost-carry_out opts d action n s h =
      let first_run = counts action s.outer in
      after-bind (AtMost n) (execute o action)
        (λ first. do
          done ← retry o opts.retries opts.backoff 1 action first
          id ← log_action o done.0.action done.0.status (undo_of action)
          pure (action_result d done.0 done.1, id))
        s
        (λ first _.
          let s1 = (execute o action s).1 in
          let kept = AtMost-retry opts.retries opts.backoff 1 action first n s1 (ground arith) in
          after-bind (AtMost n) (retry o opts.retries opts.backoff 1 action first)
            (λ done. do
              id ← log_action o done.0.action done.0.status (undo_of action)
              pure (action_result d done.0 done.1, id))
            s1 (λ _ _. kept) (λ _ _. kept))
        (λ _ _. ground arith)

  AtMost-perform :
      (opts : Options) (action : Fields) (n : ℕ) (s : Service W)
      → runs s.outer + (opts.retries + 1) ≤ n
      → AtMost n (perform o opts action s).1
  unfolding perform
  AtMost-perform opts action n s h =
      let d = evaluate o.ex.to_text action opts.allow_dangerous in
      elim (Bool-cases d.allowed) [
        | inl allowed ↦ rw (allowed, perform) (AtMost-carry_out opts d action n s h)
        | inr blocked ↦ rw (blocked, perform) (omega arith)
      ]

  -- Where each call of `_execute_routed_action` counts as one run, and waits count as none: the loop of
  -- `approve_plan` over its actions makes at most `action_retry_attempts` + 1 runs for each action,
  -- however it ends.
  pub actions_run_bounded :
      (plan_id : String) (opts : Options) (total idx : ℕ) (actions : List Fields) (r : Run)
      (s : Service W)
      → runs (execute_actions o plan_id opts total idx actions r s).1.outer
        ≤ runs s.outer + length actions * (opts.retries + 1)
  unfolding execute_actions save_progress
  actions_run_bounded plan_id opts total idx [] r s = omega arith
  actions_run_bounded plan_id opts total idx (action ∷ actions) r s =
      let n = runs s.outer + (opts.retries + 1) in
      let m = check_cancel o >> perform o opts action in
      let bound : AtMost n (m s).1 =
        after-bind (AtMost n) (check_cancel o) (λ _. perform o opts action) s
          (λ _ _. rw (check-same s) (AtMost-perform opts action n s (omega arith)))
          (λ _ _. rw (check-same s) (omega arith)) in
      elim (Result-cases (m s).0) [
        | inl (one, e) ↦
            let r' = with_entry r one in
            let s' = save_progress o plan_id total idx r' (m s).1 in
            let rest = actions_run_bounded plan_id opts total (idx + 1) actions r' s' in
            rw (e, execute_actions) (ground (arith, rest, bound))
        | inr (x, e) ↦ rw (e, execute_actions) (ground (arith, bound))
      ]
