-- ===== src/Gateway/Router.antt =====
-- `GatewayRouter` of core/novaadapt_core/agent_gateway/router.py, over the parts of a message that it
-- reads. An entry that the message lacks is an empty text, as `str(x or "")` makes it.
pub mod Present
use nova_adapt.Base.{
  String, ◌≡◌, refl, Bool, Option, none, some, List, [], ◌∷◌, if◌then◌else◌, str_eq, get_or, arith,
  true, false, ◌⊎◌, inl, inr, not, ◌&&◌,
}
use nova_adapt.Base.Text.{strip, is_empty, or_else}
use nova_adapt.Base.Lower.{lower}

pub record RoutingDecision : Type 0 where
  pub workspace_id : String
  pub profile_name : String

-- The maps as the constructor leaves them: names stripped and in small letters, values stripped.
pub record GatewayRouter : Type 0 where
  pub default_workspace : String
  pub default_profile : String
  pub channel_workspace_map : List (String × String)
  pub channel_profile_map : List (String × String)

-- `message["channel"]`, `message["connector"]` and three entries of `message["metadata"]`.
pub record Incoming : Type 0 where
  pub channel : String
  pub connector : String
  pub workspace_id : String
  pub profile_name : String
  pub policy_profile : String

abbrev pub lookup : String → List (String × String) → Option String
lookup k [] = none
lookup k ((j, v) ∷ m) = if str_eq j k then some v else lookup k m

-- `m[k] = v`, in a dict that keeps the place of a name
abbrev pub put : String → String → List (String × String) → List (String × String)
put k v [] = (k, v) ∷ []
put k v ((j, w) ∷ m) = if str_eq j k then (k, v) ∷ m else (j, w) ∷ put k v m

-- The dict comprehension of the constructor, from what it has collected.
clean_from : List (String × String) → List (String × String) → List (String × String)
clean_from out [] = out
clean_from out ((k, v) ∷ raw) =
    clean_from
      (if is_empty (strip k)
        then out
        else if is_empty (strip v)
        then out
        else put (lower (strip k)) (strip v) out)
      raw

-- `GatewayRouter(…)`
unfoldable pub make_router :
    (default_workspace default_profile : String) (workspaces profiles : List (String × String))
    → GatewayRouter
unfolding clean_from
make_router default_workspace default_profile workspaces profiles = record {
  default_workspace = or_else default_workspace "default";
  default_profile = or_else default_profile "unleashed_local";
  channel_workspace_map = clean_from [] workspaces;
  channel_profile_map = clean_from [] profiles;
}

-- The first of: the message's own entry, the channel's entry in a map, the default.
abbrev pub resolve : String → String → List (String × String) → String → String
resolve own channel channels default =
    or_else
      (if is_empty own && not (is_empty channel)
        then strip (get_or "" (lookup channel channels))
        else own)
      default

abbrev pub channel_of : Incoming → String
channel_of m = lower (strip (or_else m.channel m.connector))

-- `route`
unfoldable pub route : GatewayRouter → Incoming → RoutingDecision
route r m = record {
  workspace_id =
      resolve (strip m.workspace_id) (channel_of m) r.channel_workspace_map r.default_workspace;
  profile_name =
      resolve (strip (or_else m.profile_name m.policy_profile)) (channel_of m) r.channel_profile_map
        r.default_profile;
}
