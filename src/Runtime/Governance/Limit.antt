-- ===== src/Runtime/Governance/Limit.antt =====
-- How many runs are active at a time.
use nova_adapt.Base.{
  ℕ, ◌≤◌, ◌<◌, String, Bool, ◌≡◌, ◌∙◌, Option, none, some, List, [], ◌∷◌, arith, All, Bool-cases,
  inl, inr,
}
use nova_adapt.Runtime.Governance.{
  State, Governance, update, reset_usage, record_model_usage, leave, try_enter, room,
  blocking_reason, is_full, pause_to, reason_to, budget_to, runs_to,
}
use nova_adapt.Runtime.Governance.Balance.{
  Event, updates, resets, records, enters, leaves, apply, apply_all, after_entry,
}

-- The event does not change the limit.
abbrev pub LeavesLimit : Event → Type 0
LeavesLimit (updates now c) = c.max_active_runs ≡ none
LeavesLimit _ = Unit

pub record Within (n : ℕ) (g : Governance) : Type 0 where
  pub limit : g.state.max_active_runs ≡ some n
  pub active : g.active_runs ≤ n

limit-parts :
    (paused : Option Bool) (reason : Option String) (budget : Option (Option ℕ)) (st : State)
    → (budget_to budget (reason_to reason (pause_to paused reason st))).max_active_runs
      ≡ st.max_active_runs
unfolding pause_to reason_to budget_to
limit-parts paused reason budget st = ground arith

Within-entry :
    (n : ℕ) (g : Governance) (reason : Option String)
    → 0 < n
    → Within n g
    → Within n (after_entry (room g reason) g)
unfolding room
Within-entry n g (some reason) positive w = w
Within-entry n g none positive w =
    elim (Bool-cases (is_full g.state.max_active_runs g.active_runs)) [
      | inl full ↦ rw full w
      | inr space ↦
          rw space (record { limit = w.limit; active = ground (arith, w.limit, w.active) })
    ]

Within-apply :
    (n : ℕ) (e : Event) (g : Governance) → 0 < n → LeavesLimit e → Within n g → Within n (apply e g)
unfolding update reset_usage record_model_usage try_enter leave runs_to
Within-apply n (updates now c) g positive same w = record {
  limit = rw same (limit-parts c.paused c.pause_reason c.budget_limit g.state ∙ w.limit);
  active = w.active;
}
Within-apply n (resets now) g positive same w = record { limit = w.limit; active = w.active }
Within-apply n (records preview now strategy objective usage) g positive same w = record {
  limit = w.limit;
  active = w.active;
}
Within-apply n enters g positive same w = Within-entry n g (blocking_reason g.state) positive w
Within-apply n leaves g positive same w = record {
  limit = w.limit;
  active = omega (arith, w.active);
}

-- While the limit of active runs is a number above 0 and is not changed, never more runs than that are
-- active, however the runs come and go and whatever else is updated, reset or recorded, if no more
-- were active at the start.
pub runs_limited :
    (n : ℕ) (es : List Event) (g : Governance)
    → 0 < n
    → All LeavesLimit es
    → g.state.max_active_runs ≡ some n
    → g.active_runs ≤ n
    → (apply_all es g).active_runs ≤ n
runs_limited n [] g positive same limit active = active
runs_limited n (e ∷ es) g positive same limit active =
    let w = Within-apply n e g positive same.0 (record { limit = limit; active = active }) in
    runs_limited n es (apply e g) positive same.1 w.limit w.active
