-- ===== src/Service/Sends.antt =====
-- Where an action is sent, and how often the vision model is asked.
use nova_adapt.Base.{ℕ, suc, Bool, true, false, ◌≡◌, refl, ◌∙◌}
use nova_adapt.Base.Json.{Fields}
use nova_adapt.Base.Exec.{Exec, ok, raised}
use nova_adapt.Service.Routing.{
  Executors, Routed, word, asks_vision, infer_action_domain, normalize_routed_action,
  execute_routed_action, send, send_action, with_report, goal_of,
}
use nova_adapt.Service.Targets.{executor_of, domain-target}
use nova_adapt.Service.Normalized.{word-normalize}

module _ {W : Type 0} (ex : Executors W) (execute : Bool) where
  -- Whether an action asks the vision model, after it was normalized.
  abbrev pub asks : Fields → Bool
  asks action =
      let a = normalize_routed_action ex action in
      asks_vision (word ex.to_text "type" a) (word ex.to_text "executor" a)

  -- The branch of `execute_routed_action` that asks the vision model.
  routed_vision : ℕ → Fields → Exec W Routed
  unfolding execute_routed_action with_report goal_of
  routed_vision depth a w =
      let (found, w') = ex.ground (goal_of ex.to_text a) a w in
      elim found [
        | raised e ↦ (raised e, w')
        | ok g ↦ with_report ex g.report (execute_routed_action ex depth execute g.action w')
      ]

  pub routed-sent :
      (depth : ℕ) (action : Fields) (w : W)
      → asks action ≡ false
      → execute_routed_action ex (suc depth) execute action w
        ≡ send ex execute (normalize_routed_action ex action) w
  unfolding execute_routed_action
  routed-sent depth action w plain = rw (plain, execute_routed_action) refl

  -- The domain that `_infer_action_domain` gives an action names the executor to which
  -- `_execute_routed_action` sends it, once it is normalized: whenever its type and its executor are not
  -- those that ask the vision model.
  pub domain_agrees :
      (depth : ℕ) (action : Fields) (w : W)
      → asks_vision (word ex.to_text "type" action) (word ex.to_text "executor" action) ≡ false
      → execute_routed_action ex (suc depth) execute action w
        ≡ send_action ex
            (executor_of (infer_action_domain ex.to_text action))
            execute
            (word ex.to_text "type" action)
            (word ex.to_text "platform" action)
            (normalize_routed_action ex action)
            w
  unfolding send
  domain_agrees depth action w plain =
      let a = normalize_routed_action ex action in
      let ty = word-normalize ex "type" (refl, refl) action in
      let en = word-normalize ex "executor" (refl, refl) action in
      let pl = word-normalize ex "platform" (refl, refl) action in
      let to_executor = domain-target ex.to_text action plain in
      let plain' : asks action ≡ false = rw ty (rw en plain) in
      routed-sent depth action w plain' ∙ rw ty (rw en (rw pl (rw to_executor refl)))

  -- The same without recursion: the vision model is asked once at most, and its answer is sent.
  unfoldable pub routed_once : Fields → Exec W Routed
  unfolding send with_report goal_of
  routed_once action w =
      let a = normalize_routed_action ex action in
      elim (asks action) [
        | false ↦ send ex execute a w
        | true ↦
            let (found, w') = ex.ground (goal_of ex.to_text a) a w in
            elim found [
              | raised e ↦ (raised e, w')
              | ok g ↦
                  with_report ex g.report (send ex execute (normalize_routed_action ex g.action) w')
            ]
      ]
