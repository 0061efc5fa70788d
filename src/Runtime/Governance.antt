-- ===== src/Runtime/Governance.antt =====
-- `RuntimeGovernance` of core/novaadapt_core/runtime_governance.py. A cost is a number of millionths of
-- a dollar, to which the code rounds; the numbers of calls and costs are not negative, as its `max` makes
-- them. `_load_state` reads a file that may hold anything, and is not modelled. A time is a number.
pub mod Balance
pub mod Limit
use nova_adapt.Base.{
  ℕ, zero, suc, ◌+◌, ◌-◌, String, Bool, true, false, ◌&&◌, ◌||◌, Option, none, some, List, [], ◌∷◌,
  if◌then◌else◌, str_eq, ltb, leb, max, take, get_or, string_eq,
}
use nova_adapt.Base.Text.{strip, is_empty, or_else}
use nova_adapt.Base.Table

-- An entry of `per_model`.
pub record ModelUsage : Type 0 where
  pub model_name : String
  pub calls : ℕ
  pub cost : ℕ
  pub model_id : String

-- `self._state`
pub record State : Type 0 where
  pub paused : Bool
  pub pause_reason : String
  pub budget_limit : Option ℕ
  pub spend_estimate : ℕ
  pub llm_calls_total : ℕ
  pub runs_total : ℕ
  pub max_active_runs : Option ℕ
  pub per_model : List ModelUsage
  pub updated_at : ℕ
  pub last_run_at : Option ℕ
  pub last_objective : Option String
  pub last_strategy : Option String

-- `saved` is what the file at `state_path` holds; it is `none` where there is no path.
pub record Governance : Type 0 where
  pub active_runs : ℕ
  pub state : State
  pub has_path : Bool
  pub saved : Option State

abbrev pub initial_state : ℕ → State
initial_state now = record {
  paused = false;
  pause_reason = "";
  budget_limit = none;
  spend_estimate = 0;
  llm_calls_total = 0;
  runs_total = 0;
  max_active_runs = none;
  per_model = [];
  updated_at = now;
  last_run_at = none;
  last_objective = none;
  last_strategy = none;
}

-- The constructor, where there is no file yet.
abbrev pub make_governance : Bool → ℕ → Governance
make_governance has_path now = record {
  active_runs = 0;
  state = initial_state now;
  has_path = has_path;
  saved = none;
}

-- `_persist_locked`, after a change of the state
abbrev pub persist : State → Governance → Governance
persist st g = record g { state = st; saved = if g.has_path then some st else g.saved }

-- `snapshot`, without the statistics of the jobs that it passes on
abbrev pub snapshot : Governance → State × ℕ
snapshot g = (g.state, g.active_runs)

-- The arguments of `update`; `none` is an argument that is not given, `some none` is `None`.
pub record Change : Type 0 where
  pub paused : Option Bool
  pub pause_reason : Option String
  pub budget_limit : Option (Option ℕ)
  pub max_active_runs : Option (Option ℕ)

unfoldable pub pause_to : Option Bool → Option String → State → State
pause_to none reason st = st
pause_to (some true) reason st = record st { paused = true }
pause_to (some false) none st = record st { paused = false; pause_reason = "" }
pause_to (some false) (some reason) st = record st { paused = false }

unfoldable pub reason_to : Option String → State → State
reason_to none st = st
reason_to (some reason) st = record st { pause_reason = strip reason }

unfoldable pub budget_to : Option (Option ℕ) → State → State
budget_to none st = st
budget_to (some limit) st = record st { budget_limit = limit }

-- `max(1, int(max_active_runs))`
abbrev pub at_least_one : Option ℕ → Option ℕ
at_least_one none = none
at_least_one (some n) = some (max 1 n)

unfoldable pub runs_to : Option (Option ℕ) → State → State
runs_to none st = st
runs_to (some limit) st = record st { max_active_runs = at_least_one limit }

-- `update`
unfoldable pub update : ℕ → Change → Governance → Governance
unfolding pause_to reason_to budget_to runs_to
update now c g =
    let st = runs_to c.max_active_runs (
      budget_to c.budget_limit
        (reason_to c.pause_reason (pause_to c.paused c.pause_reason g.state))) in
    persist (record st { updated_at = now }) g

-- `reset_usage`
unfoldable pub reset_usage : ℕ → Governance → Governance
reset_usage now g =
    persist
      (record g.state {
        spend_estimate = 0;
        llm_calls_total = 0;
        runs_total = 0;
        per_model = [];
        updated_at = now;
      })
      g

over_budget : Option ℕ → ℕ → Option String
over_budget none spend = none
over_budget (some limit) spend =
    if leb limit spend then some "Runtime governance budget limit reached" else none

-- `_blocking_reason_locked`
unfoldable pub blocking_reason : State → Option String
unfolding over_budget
blocking_reason st =
    if st.paused
    then some (or_else (strip st.pause_reason) "Runtime is paused by operator")
    else over_budget st.budget_limit st.spend_estimate

-- `preflight_error`
abbrev pub preflight_error : Governance → Option String
preflight_error g = blocking_reason g.state

abbrev pub is_full : Option ℕ → ℕ → Bool
is_full none active = false
is_full (some limit) active = ltb 0 limit && leb limit active

-- A round of the loop at the start of `run_guard`: it raises, waits, or lets the run in.
pub data Entry : Type 0 where
  blocked : String → Entry
  wait : Entry
  entered : Governance → Entry

unfoldable pub room : Governance → Option String → Entry
room g (some reason) = blocked reason
room g none =
    if is_full g.state.max_active_runs g.active_runs
    then wait
    else entered (record g { active_runs = g.active_runs + 1 })

unfoldable pub try_enter : Governance → Entry
unfolding room
try_enter g = room g (blocking_reason g.state)

-- The end of `run_guard`.
unfoldable pub leave : Governance → Governance
leave g = record g { active_runs = g.active_runs - 1 }

-- An entry of the argument `usage`; an entry without an identifier has an empty one.
abbrev pub Usage : Type 0
Usage = List ModelUsage

abbrev pub model_key : ModelUsage → String
model_key u = u.model_name

-- What a call adds to the entry that is there.
abbrev pub add_usage : ModelUsage → ModelUsage → ModelUsage
add_usage u current = record current {
  calls = current.calls + u.calls;
  cost = current.cost + u.cost;
  model_id = or_else u.model_id current.model_id;
}

-- The loop over the models.
unfoldable pub add_all : Usage → List ModelUsage → List ModelUsage
add_all [] per_model = per_model
add_all (u ∷ us) per_model = add_all us (Table.upsert model_key u (add_usage u) per_model)

abbrev pub calls_of : List ModelUsage → ℕ
calls_of [] = 0
calls_of (u ∷ us) = u.calls + calls_of us

abbrev pub cost_of : List ModelUsage → ℕ
cost_of [] = 0
cost_of (u ∷ us) = u.cost + cost_of us

-- `str(objective).strip()[:220]` is a parameter.
-- `record_model_usage`
unfoldable pub record_model_usage :
    (preview : String → String) (now : ℕ) (strategy objective : String)
    → Usage
    → Governance
    → Governance
unfolding add_all
record_model_usage preview now strategy objective usage g =
    let st = g.state in
    persist
      (record st {
        per_model = add_all usage st.per_model;
        runs_total = st.runs_total + 1;
        llm_calls_total = st.llm_calls_total + calls_of usage;
        spend_estimate = st.spend_estimate + cost_of usage;
        last_run_at = some now;
        updated_at = now;
        last_objective = if is_empty objective then st.last_objective else some (preview objective);
        last_strategy = some (or_else strategy "single");
      })
      g
