-- ===== src/Service/Repair.antt =====
-- `_attempt_execution_self_heal` and `_run_repair_objective` of core/novaadapt_core/service.py. What
-- the models answer, parsed to actions, is a parameter; so is the record of what it cost.
use nova_adapt.Base.{
  ℕ, zero, suc, ◌+◌, ◌-◌, String, Bool, true, false, Option, List, [], ◌∷◌, ◌++◌, map,
  if◌then◌else◌, max, any, get_or, get_elem?, set,
}
use nova_adapt.Base.Lower.{lower}
use nova_adapt.Base.Json.{
  Value, Fields, Items, cons, nil, str, obj, arr, num, bool, field, end, get, put,
}
use nova_adapt.Base.Exec.{Exec, ◌>>=◌, ◌>>◌, pure, modify}
use nova_adapt.Plans.Policy.{is_member}
use nova_adapt.Service.Domains.{
  FailedItem, infer_repair_domain, build_plan_repair_objective, summarize_repair_results,
}
use nova_adapt.Service.Actions.{Outside, Service, perform_repair, outside, check_cancel}

-- What the models answer to a repair's objective; `actions` is the answer, parsed.
pub record Proposal : Type 0 where
  pub actions : List Fields
  pub model : Value
  pub strategy : Value

-- The arguments of a repair that it passes on.
pub record RepairOptions : Type 0 where
  pub objective : String
  pub allow_dangerous : Bool
  pub max_actions : ℕ
  pub attempts : ℕ
  pub strategy : String
  pub model : Option String
  pub candidates : List String
  pub fallbacks : List String

-- The models, asked for a repair of a domain, and their bill.
pub record Models (W : Type 0) : Type 0 where
  pub propose : (objective domain : String) → RepairOptions → Exec W Proposal
  pub record_model_usage : (objective : String) → Proposal → W → W
  pub json_text : List FailedItem → String

abbrev items : List Value → Items
items [] = nil
items (v ∷ vs) = cons v (items vs)

abbrev pub dicts : List Fields → Value
dicts fs = arr (items (map obj fs))

-- What `_run_repair_objective` returns.
pub record RepairRun : Type 0 where
  pub proposal : Proposal
  pub domain : String
  pub results : List Fields
  pub log_ids : List ℕ

-- An entry of `summary["attempts"]`.
pub record Attempt : Type 0 where
  pub attempt : ℕ
  pub objective : String
  pub run : RepairRun
  pub failed_indexes : List ℕ

-- What `_attempt_execution_self_heal` returns, with its summary.
pub record Healing : Type 0 where
  pub results : List Fields
  pub log_ids : List ℕ
  pub healed : Bool
  pub attempts : List Attempt
  pub failed_indexes : List ℕ

abbrev numbers : List ℕ → Value
numbers ns = arr (items (map num ns))

abbrev pub attempt_json : Attempt → Fields
attempt_json a = field "attempt" (num a.attempt) (
    field "objective" (str a.objective) (
      field "domain" (str a.run.domain) (
        field "model" a.run.proposal.model (
          field "strategy" a.run.proposal.strategy (
            field "actions" (dicts a.run.proposal.actions) (
              field "results" (dicts a.run.results)
                (field "failed_indexes" (numbers a.failed_indexes) end)))))))

-- `summary`
abbrev pub summary_json : Healing → Fields
summary_json h = field "healed" (bool h.healed) (
    field "attempts" (dicts (map attempt_json h.attempts))
      (field "failed_indexes" (numbers h.failed_indexes) end))

module _ {W : Type 0} (o : Outside W) (models : Models W) where
  -- `str(item.get("status", "")).lower() in {"failed", "blocked"}`
  unfoldable pub is_bad : Fields → Bool
  is_bad item =
      let status = lower (o.ex.to_text (get_or (str "") (get "status" item))) in
      is_member status ("failed" ∷ "blocked" ∷ [])

  -- The places, from `idx` on, of the results that are bad.
  unfoldable pub failed_indexes : ℕ → List Fields → List ℕ
  unfolding is_bad
  failed_indexes idx [] = []
  failed_indexes idx (item ∷ results) =
      let rest = failed_indexes (idx + 1) results in if is_bad item then idx ∷ rest else rest

  -- `xs[idx - 1]`, or `{}` out of range
  abbrev pub item_at : List Fields → ℕ → Fields
  item_at xs idx = get_or end (get_elem? xs (idx - 1))

  abbrev pub failed_item : (actions results : List Fields) → ℕ → FailedItem
  failed_item actions results idx = record {
    index = idx;
    action = item_at actions idx;
    result = item_at results idx;
  }

  -- The loop of `_run_repair_objective` over the proposed actions.
  unfoldable pub run_repair_actions : Bool → List Fields → Exec (Service W) (List Fields × List ℕ)
  unfolding perform_repair
  run_repair_actions allow_dangerous [] = pure ([], [])
  run_repair_actions allow_dangerous (action ∷ actions) = do
    one ← perform_repair o allow_dangerous action
    rest ← run_repair_actions allow_dangerous actions
    pure (one.0 ∷ rest.0, one.1 ∷ rest.1)

  -- `_run_repair_objective`
  unfoldable pub run_repair_objective :
      String → List FailedItem → RepairOptions → Exec (Service W) RepairRun
  unfolding run_repair_actions infer_repair_domain
  run_repair_objective objective failed_items opts = do
    let domain = infer_repair_domain o.ex.to_text models.json_text failed_items
    p ← outside o (models.propose objective domain opts)
    done ← run_repair_actions opts.allow_dangerous p.actions
    modify (λ s. record s { outer = models.record_model_usage objective p s.outer })
    pure (record { proposal = p; domain = domain; results = done.0; log_ids = done.1 })

  -- A repair fails if one of its actions did, or if it has none.
  abbrev pub attempt_failed : List Fields → Bool
  attempt_failed [] = true
  attempt_failed (r ∷ rs) = any is_bad (r ∷ rs)

  abbrev repaired_item : Attempt → Fields → Fields
  repaired_item a original =
      put "repair"
        (obj (
          field "healed" (bool true) (
            field "attempt" (num a.attempt) (
              field "replacement_actions" (dicts a.run.proposal.actions)
                (field "replacement_results" (dicts a.run.results) end)))))
        (put "output" (str (summarize_repair_results o.ex.to_text models.json_text a.run.results))
          (put "status" (str "repaired") original))

  -- The loop that replaces the failed results.
  unfoldable pub repair_results : Attempt → List ℕ → List Fields → List Fields
  unfolding summarize_repair_results
  repair_results a [] results = results
  repair_results a (idx ∷ idxs) results =
      repair_results a idxs (set results (idx - 1) (repaired_item a (item_at results idx)))

  abbrev attempt_note : Attempt → Fields
  attempt_note a = field "attempt" (num a.attempt) (
      field "model" a.run.proposal.model (
        field "strategy" a.run.proposal.strategy (
          field "result_statuses"
            (arr (
              items
                (map (λ r. str (o.ex.to_text (get_or (str "") (get "status" r)))) a.run.results)))
            end)))

  abbrev unrepaired_item : List Attempt → Fields → Fields
  unrepaired_item attempts original =
      put "repair"
        (obj
          (field "healed" (bool false) (field "attempts" (dicts (map attempt_note attempts)) end)))
        original

  -- The loop that notes on the failed results what was tried; a place out of range is passed over.
  unfoldable pub note_attempts : List Attempt → List ℕ → List Fields → List Fields
  note_attempts attempts [] results = results
  note_attempts attempts (idx ∷ idxs) results =
      note_attempts attempts idxs
        (set results (idx - 1) (unrepaired_item attempts (item_at results idx)))

  abbrev pub an_attempt : ℕ → String → RepairRun → List ℕ → Attempt
  an_attempt attempt objective run bad = record {
    attempt = attempt;
    objective = objective;
    run = run;
    failed_indexes = bad;
  }

  abbrev pub given_up : List Fields → List ℕ → List Attempt → List ℕ → Healing
  given_up results log_ids tried bad = record {
    results = note_attempts tried bad results;
    log_ids = log_ids;
    healed = false;
    attempts = tried;
    failed_indexes = bad;
  }

  abbrev pub replaced : Attempt → List Fields → List ℕ → List Attempt → List ℕ → Healing
  replaced a results log_ids tried bad = record {
    results = repair_results a bad results;
    log_ids = log_ids ++ a.run.log_ids;
    healed = true;
    attempts = tried ++ a ∷ [];
    failed_indexes = bad;
  }

  -- The loop of the attempts, of which `left` remain; nothing is replaced before it ends.
  unfoldable pub heal_from :
      (left attempt : ℕ)
      → RepairOptions
      → (actions results : List Fields) → (log_ids : List ℕ) → List Attempt
      → (bad : List ℕ) → Exec (Service W) Healing
  unfolding run_repair_objective build_plan_repair_objective repair_results note_attempts
  heal_from zero attempt opts actions results log_ids tried bad =
      pure (given_up results log_ids tried bad)
  heal_from (suc left) attempt opts actions results log_ids tried bad = do
    check_cancel o
    let failed_items = map (failed_item actions results) bad
    let objective =
        build_plan_repair_objective o.ex.to_text models.json_text opts.objective failed_items
    run ← run_repair_objective objective failed_items opts
    let a = an_attempt attempt objective run bad
    elim (attempt_failed run.results) [
      | true ↦
          heal_from left (attempt + 1) opts actions results (log_ids ++ run.log_ids)
            (tried ++ a ∷ []) bad
      | false ↦ pure (replaced a results log_ids tried bad)
    ]

  unfoldable pub heal_bad :
      RepairOptions → (actions results : List Fields) → List ℕ → List ℕ → Exec (Service W) Healing
  unfolding heal_from
  heal_bad opts actions results log_ids [] = pure (record {
    results = results;
    log_ids = log_ids;
    healed = true;
    attempts = [];
    failed_indexes = [];
  })
  heal_bad opts actions results log_ids (idx ∷ idxs) =
      heal_from (max 1 opts.attempts) 1 opts actions results log_ids [] (idx ∷ idxs)

  -- `_attempt_execution_self_heal`
  unfoldable pub attempt_execution_self_heal :
      RepairOptions → (actions results : List Fields) → List ℕ → Exec (Service W) Healing
  unfolding heal_bad failed_indexes
  attempt_execution_self_heal opts actions results log_ids =
      heal_bad opts actions results log_ids (failed_indexes 1 results)
