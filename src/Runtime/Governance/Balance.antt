-- ===== src/Runtime/Governance/Balance.antt =====
-- The totals against the entries of the models.
use nova_adapt.Base.{
  ℕ, ◌+◌, String, Bool, true, false, ◌≡◌, refl, Option, none, some, List, [], ◌∷◌, ◌++◌, arith,
  str_eq, eq_iff, string_eq, Bool-cases, Option-cases, inl, inr,
}
use nova_adapt.Base.Table
use nova_adapt.Base.Table.Keys.{Keyed, Keyed-update, Keyed-append}
use nova_adapt.Runtime.Governance.{
  ModelUsage, State, Governance, Change, Entry, Usage, update, reset_usage, record_model_usage,
  leave, try_enter, blocked, wait, entered, add_all, add_usage, model_key, calls_of, cost_of,
  make_governance, pause_to, reason_to, budget_to, runs_to, room, blocking_reason,
}

-- What happens to the governance: `enters` is a round of the loop of a run that wants in, and `leaves`
-- the end of a run that is in.
pub data Event : Type 0 where
  updates : ℕ → Change → Event
  resets : ℕ → Event
  records : (preview : String → String) (now : ℕ) (strategy objective : String) → Usage → Event
  enters leaves : Event

abbrev pub after_entry : Entry → Governance → Governance
after_entry (blocked reason) g = g
after_entry wait g = g
after_entry (entered g') g = g'

abbrev pub apply : Event → Governance → Governance
apply (updates now c) g = update now c g
apply (resets now) g = reset_usage now g
apply (records preview now strategy objective usage) g =
    record_model_usage preview now strategy objective usage g
apply enters g = after_entry (try_enter g) g
apply leaves g = leave g

abbrev pub apply_all : List Event → Governance → Governance
apply_all [] g = g
apply_all (e ∷ es) g = apply_all es (apply e g)

-- What an upsert adds up to: the sums of two numbers over the entries.
pub record Sums (us vs : List ModelUsage) (calls cost : ℕ) : Type 0 where
  pub keyed : Keyed model_key vs
  pub calls_sum : calls_of vs ≡ calls_of us + calls
  pub cost_sum : cost_of vs ≡ cost_of us + cost

update-absent :
    (k : String) (f : ModelUsage → ModelUsage) (us : List ModelUsage)
    → Table.select model_key k us ≡ none
    → Table.update model_key k f us ≡ us
unfolding Table.select Table.update
update-absent k f [] h = refl
update-absent k f (u ∷ us) h = elim (Bool-cases (str_eq u.model_name k)) [
  | inl same ↦ absurd (ground arith)
  | inr other ↦ rw other (ground (arith, update-absent k f us))
]

sums-update :
    (u old : ModelUsage) (us : List ModelUsage)
    → Keyed model_key us
    → Table.select model_key u.model_name us ≡ some old
    → (calls_of (Table.update model_key u.model_name (add_usage u) us) ≡ calls_of us + u.calls)
      × (cost_of (Table.update model_key u.model_name (add_usage u) us) ≡ cost_of us + u.cost)
unfolding Table.select Table.update
sums-update u old [] keyed h = absurd (cc)
sums-update u old (v ∷ us) keyed h = elim (Bool-cases (str_eq v.model_name u.model_name)) [
  | inl same ↦
      let e : v.model_name ≡ u.model_name = (eq_iff v.model_name u.model_name).0 same in
      let absent : Table.select model_key u.model_name us ≡ none = rw (← e) keyed.0 in
      let rest = update-absent u.model_name (add_usage u) us absent in
      rw same (rw rest (omega arith, omega arith))
  | inr other ↦
      let h' : Table.select model_key u.model_name us ≡ some old = ground arith in
      let (a, b) = sums-update u old us keyed.1 h' in rw other (omega (arith, a), omega (arith, b))
]

sums-append :
    (us : List ModelUsage) (u : ModelUsage)
    → (calls_of (us ++ u ∷ []) ≡ calls_of us + u.calls)
      × (cost_of (us ++ u ∷ []) ≡ cost_of us + u.cost)
sums-append [] u = (omega arith, omega arith)
sums-append (v ∷ us) u = let (a, b) = sums-append us u in (omega (arith, a), omega (arith, b))

Sums-upsert :
    (u : ModelUsage) (us : List ModelUsage)
    → Keyed model_key us
    → Sums us (Table.upsert model_key u (add_usage u) us) u.calls u.cost
unfolding Table.upsert
Sums-upsert u us keyed = elim (Option-cases (Table.select model_key u.model_name us)) [
  | inl fresh ↦
      let (a, b) = sums-append us u in
      rw fresh
        (record { keyed = Keyed-append model_key us u fresh keyed; calls_sum = a; cost_sum = b })
  | inr (old, there) ↦
      let (a, b) = sums-update u old us keyed there in
      rw there (record {
        keyed = Keyed-update model_key u.model_name (add_usage u) us (λ _. refl) keyed;
        calls_sum = a;
        cost_sum = b;
      })
]

Sums-add_all :
    (usage us : List ModelUsage)
    → Keyed model_key us
    → Sums us (add_all usage us) (calls_of usage) (cost_of usage)
unfolding add_all
Sums-add_all [] us keyed = record { keyed = keyed; calls_sum = omega arith; cost_sum = omega arith }
Sums-add_all (u ∷ usage) us keyed =
    let first = Sums-upsert u us keyed in
    let rest = Sums-add_all usage (Table.upsert model_key u (add_usage u) us) first.keyed in
    record {
      keyed = rest.keyed;
      calls_sum = omega (arith, first.calls_sum, rest.calls_sum);
      cost_sum = omega (arith, first.cost_sum, rest.cost_sum);
    }

pub record Balanced (st : State) : Type 0 where
  pub keyed : Keyed model_key st.per_model
  pub calls : st.llm_calls_total ≡ calls_of st.per_model
  pub spend : st.spend_estimate ≡ cost_of st.per_model

-- A change of the other fields.
Balanced-same :
    (st st' : State)
    → st'.per_model ≡ st.per_model
    → st'.llm_calls_total ≡ st.llm_calls_total
    → st'.spend_estimate ≡ st.spend_estimate
    → Balanced st
    → Balanced st'
Balanced-same st st' m c s b = record {
  keyed = rw m b.keyed;
  calls = rw (m, c) b.calls;
  spend = rw (m, s) b.spend;
}

Balanced-pause :
    (p : Option Bool) (reason : Option String) (st : State)
    → Balanced st
    → Balanced (pause_to p reason st)
unfolding pause_to
Balanced-pause none reason st b = b
Balanced-pause (some true) reason st b = Balanced-same st _ refl refl refl b
Balanced-pause (some false) none st b = Balanced-same st _ refl refl refl b
Balanced-pause (some false) (some reason) st b = Balanced-same st _ refl refl refl b

Balanced-reason :
    (reason : Option String) (st : State) → Balanced st → Balanced (reason_to reason st)
unfolding reason_to
Balanced-reason none st b = b
Balanced-reason (some reason) st b = Balanced-same st _ refl refl refl b

Balanced-budget :
    (limit : Option (Option ℕ)) (st : State) → Balanced st → Balanced (budget_to limit st)
unfolding budget_to
Balanced-budget none st b = b
Balanced-budget (some limit) st b = Balanced-same st _ refl refl refl b

Balanced-runs : (limit : Option (Option ℕ)) (st : State) → Balanced st → Balanced (runs_to limit st)
unfolding runs_to
Balanced-runs none st b = b
Balanced-runs (some limit) st b = Balanced-same st _ refl refl refl b

state-entry :
    (g : Governance) (reason : Option String) → (after_entry (room g reason) g).state ≡ g.state
unfolding room
state-entry g (some reason) = refl
state-entry g none = ground arith

Balanced-apply : (e : Event) (g : Governance) → Balanced g.state → Balanced (apply e g).state
unfolding update reset_usage record_model_usage try_enter leave
Balanced-apply (updates now c) g b = Balanced-same _ _ refl refl refl (
    Balanced-runs c.max_active_runs _ (
      Balanced-budget c.budget_limit _
        (Balanced-reason c.pause_reason _ (Balanced-pause c.paused c.pause_reason g.state b))))
Balanced-apply (resets now) g b = record { keyed = tt; calls = refl; spend = refl }
Balanced-apply (records preview now strategy objective usage) g b =
    let sums = Sums-add_all usage g.state.per_model b.keyed in
    record {
      keyed = sums.keyed;
      calls = omega (arith, b.calls, sums.calls_sum);
      spend = omega (arith, b.spend, sums.cost_sum);
    }
Balanced-apply enters g b = rw (state-entry g (blocking_reason g.state)) b
Balanced-apply leaves g b = b

Balanced-apply_all :
    (es : List Event) (g : Governance) → Balanced g.state → Balanced (apply_all es g).state
Balanced-apply_all [] g b = b
Balanced-apply_all (e ∷ es) g b = Balanced-apply_all es (apply e g) (Balanced-apply e g b)

-- From a new governance on, through any updates, resets, records of usage, and runs that come and go:
-- the total number of calls is the sum over the models' entries, and the estimated spend is the sum of
-- their costs.
pub totals_balance :
    (es : List Event) (has_path : Bool) (now : ℕ)
    → let st = (apply_all es (make_governance has_path now)).state in
      (st.llm_calls_total ≡ calls_of st.per_model) × (st.spend_estimate ≡ cost_of st.per_model)
totals_balance es has_path now =
    let g = make_governance has_path now in
    let b = Balanced-apply_all es g (record { keyed = tt; calls = refl; spend = refl }) in
    (b.calls, b.spend)
