-- ===== src/Service/Routing.antt =====
-- `_normalize_routed_action`, `_execute_routed_action` and `_infer_action_domain` of
-- core/novaadapt_core/service.py. The executors and the vision model are parameters, functions on a
-- state `W`; so are Python's `str` of a JSON value, and the text of `int` of one.
use Prim.Native.String
use nova_adapt.Base.{
  ℕ, zero, suc, String, Bool, true, false, not, ◌&&◌, ◌||◌, Option, none, some, List, [], ◌∷◌,
  if◌then◌else◌, str_eq, get_or,
}
use nova_adapt.Base.Text.{strip, is_empty, or_else}
use nova_adapt.Base.Lower.{lower}
use nova_adapt.Base.Find.{starts_with, remove_prefix}
use nova_adapt.Base.Json.{
  Value, Fields, Items, str, arr, cons, nil, null, field, end, truthy, get, put, set_default,
}
use nova_adapt.Base.Exec.{Exec, Result, ok, raised, runtime_error}
use nova_adapt.Plans.Policy.{is_member}

-- `_result_payload`; `data` is left out where it is `none`.
pub record Routed : Type 0 where
  pub status : String
  pub output : String
  pub action : Fields
  pub «data» : Option Fields

-- What the vision model answers: an action, and what is reported of the answer.
pub record Grounded : Type 0 where
  pub action : Fields
  pub report : Value

-- The code and the devices that the routing calls. The first argument of `mobile`, `homeassistant` and
-- `directshell` is `dry_run`.
pub record Executors (W : Type 0) : Type 0 where
  pub to_text : Value → String
  pub int_text : Value → Option String
  pub ground : String → Fields → Exec W Grounded
  pub mobile : Bool → Fields → Exec W Routed
  pub homeassistant : Bool → Fields → Exec W Routed
  pub browser : Fields → Exec W Routed
  pub directshell : Bool → Fields → Exec W Routed

-- `action.get(k)`, where a missing entry is `None`
abbrev pub get_value : String → Fields → Value
get_value k action = get_or null (get k action)

abbrev pub is_null : Value → Bool
is_null null = true
is_null _ = false

abbrev pub iot_types : List String
iot_types =
    "ha_service" ∷ "mqtt_publish" ∷ "mqtt_subscribe" ∷ "discover" ∷ "discover_entities"
    ∷ "list_entities" ∷ []

-- `BrowserExecutor.capabilities()`
abbrev pub browser_types : List String
browser_types =
    "navigate" ∷ "click_selector" ∷ "fill" ∷ "extract_text" ∷ "screenshot" ∷ "wait_for_selector"
    ∷ "evaluate_js" ∷ "new_context" ∷ "new_page" ∷ "list_pages" ∷ "switch_page" ∷ "close_page" ∷ []

-- `"+".join(…)`
abbrev join_plus : List String → String
join_plus [] = ""
join_plus (s ∷ []) = s
join_plus (s ∷ (t ∷ rest)) = String.◌++◌ s (String.◌++◌ "+" (join_plus (t ∷ rest)))

module _ (to_text : Value → String) where
  -- `str(action.get(k) or "")`
  abbrev pub text_or_empty : String → Fields → String
  text_or_empty k action = let v = get_value k action in if truthy v then to_text v else ""

  -- `str(action.get(k) or "").strip().lower()`
  unfoldable pub word : String → Fields → String
  word k action = lower (strip (text_or_empty k action))

  -- The first of three entries that says something.
  unfoldable pub goal_of : Fields → String
  goal_of action = strip (
      or_else (text_or_empty "goal" action)
        (or_else (text_or_empty "target" action) (text_or_empty "value" action)))

  -- The keys of a hotkey that are not blank.
  key_names : Items → List String
  key_names nil = []
  key_names (cons v vs) =
      let rest = key_names vs in
      let name = strip (to_text v) in if is_empty name then rest else name ∷ rest

  -- `_infer_action_domain`
  unfoldable pub infer_action_domain : Fields → String
  infer_action_domain action =
      let action_type = word "type" action in
      let executor_name = word "executor" action in
      let platform_name = word "platform" action in
      if str_eq platform_name "ios" || starts_with "ios_" action_type
      then "mobile_ios"
      else if str_eq platform_name "android" || starts_with "android_" action_type
      then "mobile_android"
      else if str_eq executor_name "mobile"
      then "mobile"
      else if str_eq executor_name "vision" || str_eq action_type "vision_goal"
      then "vision"
      else if is_member action_type iot_types
          || is_member executor_name ("homeassistant" ∷ "iot" ∷ [])
      then "iot"
      else if is_member action_type browser_types || str_eq executor_name "browser"
      then "browser"
      else "desktop"

-- The executor that gets an action.
pub data Target : Type 0 where
  mobile homeassistant browser directshell : Target

-- The first test of `_execute_routed_action`: the vision model is asked for another action.
abbrev pub asks_vision : (action_type executor_name : String) → Bool
asks_vision action_type executor_name =
    str_eq executor_name "vision" || str_eq action_type "vision_goal"

-- Its other tests, in its order.
unfoldable pub target : (action_type executor_name platform_name : String) → Target
target action_type executor_name platform_name =
    if is_member platform_name ("android" ∷ "ios" ∷ [])
      || str_eq executor_name "mobile"
      || starts_with "android_" action_type
      || starts_with "ios_" action_type
    then mobile
    else if is_member action_type iot_types
        || is_member executor_name ("homeassistant" ∷ "iot" ∷ [])
    then homeassistant
    else if is_member action_type browser_types || str_eq executor_name "browser"
    then browser
    else directshell

module _ {W : Type 0} (ex : Executors W) where
  -- The target of a click is made from its coordinates, if both are there and are numbers.
  unfoldable pub with_point : Value → Value → Fields → Fields
  with_point x y action = if is_null x || is_null y then action else elim (ex.int_text x) [
    | none ↦ action
    | some xt ↦ elim (ex.int_text y) [
      | none ↦ action
      | some yt ↦ put "target" (str (String.◌++◌ xt (String.◌++◌ "," yt))) action
    ]
  ]

  unfoldable pub with_keys : Value → Fields → Fields
  unfolding key_names
  with_keys (arr keys) action = put "target" (str (join_plus (key_names ex.to_text keys))) action
  with_keys _ action = action

  -- The three repairs of `_normalize_routed_action`, each for its action types.
  unfoldable pub normal_click : String → Fields → Fields
  unfolding with_point
  normal_click action_type action =
      if is_member action_type ("click" ∷ "right_click" ∷ "double_click" ∷ [])
        && not (truthy (get_value "target" action))
      then with_point (get_value "x" action) (get_value "y" action) action
      else action

  unfoldable pub normal_text : String → Fields → Fields
  normal_text action_type action =
      if is_member action_type ("type" ∷ "text" ∷ "input" ∷ [])
        && not (truthy (get_value "value" action))
        && not (is_null (get_value "text" action))
      then put "value" (str (text_or_empty ex.to_text "text" action)) action
      else action

  unfoldable pub normal_hotkey : String → Fields → Fields
  unfolding with_keys
  normal_hotkey action_type action =
      if str_eq action_type "hotkey" && not (truthy (get_value "target" action))
      then with_keys (get_value "keys" action) action
      else action

  -- `_normalize_routed_action`
  unfoldable pub normalize_routed_action : Fields → Fields
  unfolding word normal_click normal_text normal_hotkey
  normalize_routed_action action =
      let action_type = word ex.to_text "type" action in
      normal_hotkey action_type (normal_text action_type (normal_click action_type action))

  -- What a phone's action is sent as.
  abbrev pub mobile_action : (action_type platform_name : String) → Fields → Fields
  mobile_action action_type platform_name action =
      if starts_with "android_" action_type
      then put "platform" (str "android")
          (put "type" (str (remove_prefix "android_" action_type)) action)
      else if starts_with "ios_" action_type
      then put "platform" (str "ios") (put "type" (str (remove_prefix "ios_" action_type)) action)
      else if is_member platform_name ("android" ∷ "ios" ∷ [])
      then put "platform" (str platform_name) action
      else set_default "platform" (str "android") action

  preview : String → Fields → Exec W Routed
  preview action_type action w = (
    ok (record {
      status = "preview";
      output = String.◌++◌ "Preview only: browser " action_type;
      action = action;
      «data» = some (field "transport" (str "browser") end);
    }),
    w,
  )

  -- The result of the inner action, with what the vision model reported.
  unfoldable pub with_report : Value → Result Routed × W → Result Routed × W
  with_report report (raised e, w) = (raised e, w)
  with_report report (ok r, w) =
      (ok (record r { «data» = some (put "vision" report (get_or end r.«data»)) }), w)

  with_action : Fields → Result Routed × W → Result Routed × W
  with_action action (raised e, w) = (raised e, w)
  with_action action (ok r, w) = (ok (record r { action = action }), w)

  -- `_result_payload(…, None)`
  without_data : Result Routed × W → Result Routed × W
  without_data (raised e, w) = (raised e, w)
  without_data (ok r, w) = (ok (record r { «data» = none }), w)

  -- The calls of the executors.
  unfoldable pub send_action :
      Target → Bool → (action_type platform_name : String) → Fields → Exec W Routed
  unfolding preview with_action without_data
  send_action mobile execute action_type platform_name action w =
      ex.mobile (not execute) (mobile_action action_type platform_name action) w
  send_action homeassistant execute action_type platform_name action w =
      ex.homeassistant (not execute) action w
  send_action browser execute action_type platform_name action w =
      if execute then with_action action (ex.browser action w) else preview action_type action w
  send_action directshell execute action_type platform_name action w =
      without_data (ex.directshell (not execute) action w)

  -- An action that needs no vision model.
  unfoldable pub send : Bool → Fields → Exec W Routed
  unfolding word target send_action
  send execute action w =
      let action_type = word ex.to_text "type" action in
      let platform_name = word ex.to_text "platform" action in
      send_action (target action_type (word ex.to_text "executor" action) platform_name) execute
        action_type platform_name action w

  -- `_execute_routed_action`; `depth` is how many calls of itself the interpreter still allows.
  unfoldable pub execute_routed_action : ℕ → Bool → Fields → Exec W Routed
  unfolding normalize_routed_action word send with_report goal_of
  execute_routed_action zero execute action w =
      (raised (runtime_error "maximum recursion depth exceeded"), w)
  execute_routed_action (suc depth) execute action w =
      let a = normalize_routed_action action in
      elim (asks_vision (word ex.to_text "type" a) (word ex.to_text "executor" a)) [
        | false ↦ send execute a w
        | true ↦
            let (found, w') = ex.ground (goal_of ex.to_text a) a w in
            elim found [
              | raised e ↦ (raised e, w')
              | ok g ↦ with_report g.report (execute_routed_action depth execute g.action w')
            ]
      ]
