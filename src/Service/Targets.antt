-- ===== src/Service/Targets.antt =====
-- Which executor the domain of an action stands for.
use nova_adapt.Base.{
  String, Bool, true, false, ◌||◌, ◌≡◌, refl, ◌∙◌, arith, str_eq, eq_iff, [], ◌∷◌, if◌then◌else◌,
}
use nova_adapt.Base.Find.{starts_with}
use nova_adapt.Base.Json.{Fields, Value}
use nova_adapt.Plans.Policy.{is_member}
use nova_adapt.Service.Routing.{
  Target, mobile, homeassistant, browser, directshell, word, target, asks_vision,
  infer_action_domain, iot_types, browser_types,
}

-- The executor that a domain stands for.
abbrev pub executor_of : String → Target
executor_of domain =
    if is_member domain ("mobile" ∷ "mobile_ios" ∷ "mobile_android" ∷ [])
    then mobile
    else if str_eq domain "iot"
    then homeassistant
    else if str_eq domain "browser"
    then browser
    else directshell

str_eq_sym : (s t : String) → str_eq s t ≡ str_eq t s
str_eq_sym s t = ground (arith, eq_iff s t, eq_iff t s)

-- The two functions test in another order.
reordered :
    (pi ta_ios pa ta_android em iot br : Bool)
    → (if pi || ta_ios
        then mobile
        else if pa || ta_android
        then mobile
        else if em
        then mobile
        else if iot
        then homeassistant
        else if br
        then browser
        else directshell)
      ≡ (if (pa || (pi || false)) || em || ta_android || ta_ios
          then mobile
          else if iot
          then homeassistant
          else if br
          then browser
          else directshell)
reordered pi ta_ios pa ta_android em iot br = ground arith

executor_of-domain :
    (pi pa em iot br : Bool)
    → executor_of (
        if pi
        then "mobile_ios"
        else if pa
        then "mobile_android"
        else if em
        then "mobile"
        else if iot
        then "iot"
        else if br
        then "browser"
        else "desktop")
      ≡ (if pi
          then mobile
          else if pa
          then mobile
          else if em
          then mobile
          else if iot
          then homeassistant
          else if br
          then browser
          else directshell)
executor_of-domain true pa em iot br = refl
executor_of-domain false true em iot br = refl
executor_of-domain false false true iot br = refl
executor_of-domain false false false true br = refl
executor_of-domain false false false false true = refl
executor_of-domain false false false false false = refl

module _ (to_text : Value → String) where
  pub domain-target :
      (action : Fields)
      → asks_vision (word to_text "type" action) (word to_text "executor" action) ≡ false
      → executor_of (infer_action_domain to_text action)
        ≡ target
            (word to_text "type" action)
            (word to_text "executor" action)
            (word to_text "platform" action)
  unfolding infer_action_domain target
  domain-target action no_vision =
      let action_type = word to_text "type" action in
      let executor_name = word to_text "executor" action in
      let platform_name = word to_text "platform" action in
      let pi = str_eq platform_name "ios" in
      let pa = str_eq platform_name "android" in
      let iot =
        is_member action_type iot_types || is_member executor_name ("homeassistant" ∷ "iot" ∷ []) in
      let br = is_member action_type browser_types || str_eq executor_name "browser" in
      rw no_vision (
        executor_of-domain (pi || starts_with "ios_" action_type)
          (pa || starts_with "android_" action_type) (str_eq executor_name "mobile") iot br
        ∙ reordered pi (starts_with "ios_" action_type) pa (starts_with "android_" action_type)
            (str_eq executor_name "mobile") iot br
        ∙ rw (str_eq_sym platform_name "ios") (rw (str_eq_sym platform_name "android") refl))
