-- ===== src/Service/Domains.antt =====
-- What a repair is asked for: `_infer_repair_domain`, `_repair_domain_user_guidance`,
-- `_build_plan_repair_objective` and `_summarize_repair_results` of core/novaadapt_core/service.py.
use Prim.Native.String
use nova_adapt.Base.{ℕ, String, ◌||◌, List, [], ◌∷◌, map, if◌then◌else◌, str_eq, all}
use nova_adapt.Base.Text.{strip, is_empty}
use nova_adapt.Base.Json.{Value, Fields}
use nova_adapt.Plans.Policy.{is_member}
use nova_adapt.Service.Routing.{infer_action_domain, text_or_empty}

-- A failed action, with its place from 1 and what came of it.
pub record FailedItem : Type 0 where
  pub index : ℕ
  pub action : Fields
  pub result : Fields

-- The set of the domains that are not blank: each once.
distinct : List String → List String
distinct [] = []
distinct (d ∷ ds) =
    let rest = distinct ds in if is_empty d || is_member d rest then rest else d ∷ rest

-- The end of `_infer_repair_domain`, on the set of the domains.
abbrev pub repair_domain_of : List String → String
repair_domain_of [] = "desktop"
repair_domain_of (d ∷ []) = d
repair_domain_of (d ∷ (e ∷ ds)) =
    if all (λ x. is_member x ("mobile" ∷ "mobile_android" ∷ "mobile_ios" ∷ [])) (d ∷ e ∷ ds)
    then "mobile"
    else "mixed"

-- The text that `_repair_domain_user_guidance` has for a domain.
unfoldable pub guidance : String → String
guidance domain =
    if str_eq domain "browser"
    then "Use browser-native actions only and keep browser selectors or URLs in target. Set executor='browser' for replacement steps."
    else if str_eq domain "mobile_android"
    then "Use Android mobile actions only. Set platform='android' and keep coordinates or selectors in target."
    else if str_eq domain "mobile_ios"
    then "Use iOS mobile actions only. Set platform='ios' and keep coordinates, selectors, bundle IDs, or URLs in target."
    else if str_eq domain "mobile"
    then "Use mobile actions only and include platform='android' or platform='ios' on every replacement step."
    else if str_eq domain "iot"
    then "Use IoT actions only. Prefer ha_service or mqtt_publish and keep entity IDs or topics in target."
    else if str_eq domain "vision"
    then "Use vision or concrete desktop actions only. Prefer the smallest corrective step."
    else "Use native desktop actions only and keep every action deterministic."

concat_text : List String → String
concat_text [] = ""
concat_text (s ∷ ss) = String.◌++◌ s (concat_text ss)

-- Python's `str` of a value, and `json.dumps`.
module _ (to_text : Value → String) (json_text : List FailedItem → String) where
  -- `_infer_repair_domain`
  unfoldable pub infer_repair_domain : List FailedItem → String
  unfolding distinct
  infer_repair_domain failed_items =
      repair_domain_of
        (distinct (map (λ (i : FailedItem). infer_action_domain to_text i.action) failed_items))

  -- `_build_plan_repair_objective`
  unfoldable pub build_plan_repair_objective : String → List FailedItem → String
  unfolding infer_repair_domain guidance concat_text
  build_plan_repair_objective objective failed_items =
      let domain = infer_repair_domain failed_items in
      concat_text (
        "Repair only the failed or blocked parts of this plan. Do not repeat already successful steps.\n\nOriginal objective:\n"
        ∷ objective
        ∷ "\n\nFailed plan items (JSON):\n"
        ∷ json_text failed_items
        ∷ "\n\nRepair domain: "
        ∷ domain
        ∷ ".\n"
        ∷ guidance domain
        ∷ "\n\nReturn only the replacement actions needed to complete the failed work."
        ∷ [])

  -- `_summarize_repair_results`
  unfoldable pub summarize_repair_results : List Fields → String
  summarize_repair_results [] = "Repaired via generated replacement actions."
  summarize_repair_results (item ∷ items) =
      let output = strip (text_or_empty to_text "output" item) in
      if is_empty output then summarize_repair_results items else output
