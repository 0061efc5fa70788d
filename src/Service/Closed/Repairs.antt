-- ===== src/Service/Closed/Repairs.antt =====
-- What `_attempt_execution_self_heal` keeps.
use nova_adapt.Base.{ℕ, zero, suc, ◌+◌, String, true, false, List, [], ◌∷◌, ◌++◌, map, max}
use nova_adapt.Base.Json.{Fields}
use nova_adapt.Base.Exec.{Exec, ◌>>=◌, ◌>>◌, pure, modify}
use nova_adapt.Base.Exec.Preserves.{Preserves, Preserves-bind, Preserves-elim}
use nova_adapt.Service.Actions.{Outside, Service, outside, check_cancel}
use nova_adapt.Service.Domains.{FailedItem, infer_repair_domain, build_plan_repair_objective}
use nova_adapt.Service.Repair.{
  Models, RepairOptions, RepairRun, Attempt, Healing, run_repair_actions, run_repair_objective,
  heal_from, heal_bad, attempt_execution_self_heal, failed_indexes, attempt_failed, failed_item,
  an_attempt, replaced,
}
use nova_adapt.Service.Closed.{Closed, Preserves-run_repair_actions, Preserves-check_cancel}

module _ {κ} {W : Type 0} (o : Outside W) (models : Models W) (plan_id : String)
    (opts : RepairOptions) (P : Service W → Type κ)
    (c : Closed o models plan_id opts.allow_dangerous P) where
  Preserves-run_repair_objective :
      (objective : String) (failed_items : List FailedItem)
      → Preserves P (run_repair_objective o models objective failed_items opts)
  unfolding run_repair_objective
  Preserves-run_repair_objective objective failed_items =
      let domain = infer_repair_domain o.ex.to_text models.json_text failed_items in
      Preserves-bind P (outside o (models.propose objective domain opts))
        (λ p. do
          done ← run_repair_actions o models opts.allow_dangerous p.actions
          modify (λ s. record s { outer = models.record_model_usage objective p s.outer })
          pure (record { proposal = p; domain = domain; results = done.0; log_ids = done.1 }))
        (c.propose objective domain opts)
        (λ p.
          Preserves-bind P (run_repair_actions o models opts.allow_dangerous p.actions)
            (λ done. do
              modify (λ s. record s { outer = models.record_model_usage objective p s.outer })
              pure (record { proposal = p; domain = domain; results = done.0; log_ids = done.1 }))
            (Preserves-run_repair_actions o models plan_id opts.allow_dangerous P c p.actions)
            (λ done s h. c.usage objective p s h))

  Preserves-heal_from :
      (left attempt : ℕ) (actions results : List Fields) (log_ids : List ℕ) (tried : List Attempt)
      (bad : List ℕ)
      → Preserves P (heal_from o models left attempt opts actions results log_ids tried bad)
  unfolding heal_from
  Preserves-heal_from zero attempt actions results log_ids tried bad = λ s h. h
  Preserves-heal_from (suc left) attempt actions results log_ids tried bad =
      let failed_items = map (failed_item o models actions results) bad in
      let objective =
        build_plan_repair_objective o.ex.to_text models.json_text opts.objective failed_items in
      let next : RepairRun → Exec (Service W) Healing = λ run.
        let a = an_attempt o models attempt objective run bad in
        elim (attempt_failed o models run.results) [
          | true ↦
              heal_from o models left (attempt + 1) opts actions results (log_ids ++ run.log_ids)
                (tried ++ a ∷ []) bad
          | false ↦ pure (replaced o models a results log_ids tried bad)
        ] in
      Preserves-bind P (check_cancel o)
        (λ _. run_repair_objective o models objective failed_items opts >>= next)
        (Preserves-check_cancel o models plan_id opts.allow_dangerous P c)
        (λ _.
          Preserves-bind P (run_repair_objective o models objective failed_items opts) next
            (Preserves-run_repair_objective objective failed_items)
            (λ run.
              let a = an_attempt o models attempt objective run bad in
              Preserves-elim P (attempt_failed o models run.results)
                (heal_from o models left (attempt + 1) opts actions results (log_ids ++ run.log_ids)
                  (tried ++ a ∷ []) bad)
                (pure (replaced o models a results log_ids tried bad))
                (λ _.
                  Preserves-heal_from left (attempt + 1) actions results (log_ids ++ run.log_ids)
                    (tried ++ a ∷ []) bad)
                (λ _ s h. h)))

  Preserves-heal_bad :
      (actions results : List Fields) (log_ids bad : List ℕ)
      → Preserves P (heal_bad o models opts actions results log_ids bad)
  unfolding heal_bad
  Preserves-heal_bad actions results log_ids [] = λ s h. h
  Preserves-heal_bad actions results log_ids (idx ∷ idxs) =
      Preserves-heal_from (max 1 opts.attempts) 1 actions results log_ids [] (idx ∷ idxs)

  pub Preserves-heal :
      (actions results : List Fields) (log_ids : List ℕ)
      → Preserves P (attempt_execution_self_heal o models opts actions results log_ids)
  unfolding attempt_execution_self_heal
  Preserves-heal actions results log_ids =
      Preserves-heal_bad actions results log_ids (failed_indexes o models 1 results)
