-- ===== src/Service/Create.antt =====
-- `create_plan` of core/novaadapt_core/service.py. The run of the agent that makes the preview, without
-- execution, is a parameter, as is Python's `str`.
use nova_adapt.Base.{String, false, none, some, List, get_or}
use nova_adapt.Base.Text.{strip, is_empty}
use nova_adapt.Base.Json.{Value, Fields, str, bool, get, put}
use nova_adapt.Base.Exec.{Exec, value_error, ◌>>=◌, ◌>>◌, pure, raise_if}
use nova_adapt.Plans.PlanStore
use nova_adapt.Plans.PlanStore.{PlanRecord, NewPlan, Plans}
use nova_adapt.Service.Actions.{Outside, Service, outside}

-- What `run` returns, as far as it is read.
pub record Preview : Type 0 where
  pub model : Value
  pub model_id : Value
  pub actions : List Fields
  pub votes : Value
  pub vote_summary : Value
  pub model_errors : Value
  pub attempted_models : Value
  pub collaboration : Value
  pub results : Value

-- The payload of `PlanStore.create`.
abbrev pub new_plan : (objective strategy : String) → Preview → NewPlan
new_plan objective strategy v = record {
  id = "";
  objective = objective;
  strategy = some strategy;
  model = v.model;
  model_id = v.model_id;
  actions = v.actions;
  votes = v.votes;
  vote_summary = v.vote_summary;
  model_errors = v.model_errors;
  attempted_models = v.attempted_models;
  collaboration = v.collaboration;
  status = some "pending";
  progress_completed = none;
  progress_total = none;
  repair = none;
}

module _ {W : Type 0} (o : Outside W) (preview : Fields → Exec W Preview)
    (new_id : W → String) where
  -- `str(payload.get(k, default))`
  abbrev text_entry : String → String → Fields → String
  text_entry k default payload = o.ex.to_text (get_or (str default) (get k payload))

  -- The preview is never executed, and never logged, whatever the payload says.
  abbrev preview_payload : Fields → Fields
  preview_payload payload = put "record_history" (bool false) (put "execute" (bool false) payload)

  -- `self._plans().create(…)`, with an identifier that `uuid4` makes up
  unfoldable pub store_plan : NewPlan → Exec (Service W) PlanRecord
  store_plan n s =
      let (r, plans) = PlanStore.create (o.now s.outer) (new_id s.outer) n s.plans in
      (r, record s { plans = plans })

  -- `create_plan`: the stored plan, and the results of the preview.
  unfoldable pub create_plan : Fields → Exec (Service W) (PlanRecord × Value)
  unfolding store_plan
  create_plan payload = do
    v ← outside o (preview (preview_payload payload))
    let objective = strip (text_entry "objective" "" payload)
    raise_if (is_empty objective) (value_error "'objective' is required")
    p ← store_plan (new_plan objective (text_entry "strategy" "single" payload) v)
    pure (p, v.results)
