-- ===== src/Plans/Policy.antt =====
-- `ActionPolicy` of core/novaadapt_core/policy.py. Python's `str` of an entry's value is a parameter.
pub mod Gate
use nova_adapt.Base.{
  String, Bool, true, false, not, ◌&&◌, ◌||◌, Option, none, some, List, [], ◌∷◌, map, if◌then◌else◌,
  str_eq, any,
}
use nova_adapt.Base.Text.{strip}
use nova_adapt.Base.Lower.{lower}
use nova_adapt.Base.Find.{occurs_in, join}
use nova_adapt.Base.Json.{Value, Fields, get}

abbrev pub dangerous_types : List String
dangerous_types =
    "delete" ∷ "remove" ∷ "rm" ∷ "format" ∷ "shutdown" ∷ "reboot" ∷ "kill" ∷ "terminate"
    ∷ "run_shell" ∷ "shell" ∷ "terminal" ∷ "ha_service" ∷ "mqtt_publish" ∷ "run_adb" ∷ []

abbrev pub dangerous_keywords : List String
dangerous_keywords =
    "rm -rf" ∷ "format" ∷ "factory reset" ∷ "delete" ∷ "drop table" ∷ "shutdown" ∷ "reboot"
    ∷ "killall" ∷ "poweroff" ∷ "delete account" ∷ []

abbrev pub mobile_financial_keywords : List String
mobile_financial_keywords =
    "bank" ∷ "banking" ∷ "payment" ∷ "pay bill" ∷ "pay" ∷ "transfer" ∷ "wire" ∷ "withdraw"
    ∷ "deposit" ∷ "venmo" ∷ "cash app" ∷ "zelle" ∷ "paypal" ∷ "credit card" ∷ "debit card"
    ∷ "wallet" ∷ []

abbrev pub physical_actuation_keywords : List String
physical_actuation_keywords =
    "garage" ∷ "door" ∷ "gate" ∷ "unlock" ∷ "lock" ∷ "alarm" ∷ "vacuum" ∷ "robot" ∷ "thermostat"
    ∷ "heater" ∷ "sprinkler" ∷ "printer" ∷ "3d printer" ∷ "light" ∷ "actuator" ∷ []

pub record PolicyDecision : Type 0 where
  pub allowed : Bool
  pub dangerous : Bool
  pub reason : String

-- `s in names`
abbrev pub is_member : String → List String → Bool
is_member s names = any (λ name. str_eq name s) names

-- `any(keyword in haystack for keyword in keywords)`
abbrev pub mentions : List String → String → Bool
mentions keywords haystack = any (λ keyword. occurs_in keyword haystack) keywords

-- The entries that make up the haystack, in its order.
abbrev pub watched : List String
watched =
    "type" ∷ "platform" ∷ "target" ∷ "value" ∷ "domain" ∷ "service" ∷ "entity_id" ∷ "topic"
    ∷ "command" ∷ []

-- The end of `evaluate`.
abbrev pub decide : Bool → Bool → PolicyDecision
decide dangerous allow_dangerous =
    if dangerous && not allow_dangerous
    then record {
      allowed = false;
      dangerous = true;
      reason =
          "Blocked potentially destructive or sensitive action. Re-run with --allow-dangerous after reviewing the plan.";
    }
    else record { allowed = true; dangerous = dangerous; reason = "allowed" }

module _ (to_text : Value → String) where
  -- `str(action.get(k, "")).strip().lower()`
  unfoldable pub entry : Fields → String → String
  entry action k = lower (strip (elim (get k action) [ none ↦ "" | some v ↦ to_text v ]))

  abbrev pub haystack : Fields → String
  haystack action = join (map (entry action) watched)

  -- `dangerous`, after all the tests
  unfoldable pub is_dangerous : Fields → Bool
  is_dangerous action =
      let action_type = entry action "type" in
      let text = haystack action in
      (is_member action_type dangerous_types || mentions dangerous_keywords text)
      || (is_member (entry action "platform") ("android" ∷ "ios" ∷ [])
          && mentions mobile_financial_keywords text)
      || is_member action_type ("ha_service" ∷ "mqtt_publish" ∷ [])
      || mentions physical_actuation_keywords text

  -- `evaluate`
  unfoldable pub evaluate : Fields → Bool → PolicyDecision
  unfolding is_dangerous
  evaluate action allow_dangerous = decide (is_dangerous action) allow_dangerous
