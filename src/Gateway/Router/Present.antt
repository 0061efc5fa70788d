-- ===== src/Gateway/Router/Present.antt =====
-- Every message is routed to some workspace and some profile.
use nova_adapt.Base.{String, ◌≡◌, refl, false, List, Bool-cases, inl, inr}
use nova_adapt.Base.Text.{is_empty, or_else}
use nova_adapt.Gateway.Router.{Incoming, make_router, route}

or_else-present : (s d : String) → is_empty d ≡ false → is_empty (or_else s d) ≡ false
or_else-present s d h = elim (Bool-cases (is_empty s)) [
  | inl blank ↦ rw blank h
  | inr present ↦ rw present present
]

-- A router that was made from any settings routes every message to a workspace and a profile whose
-- names are not empty.
pub route-present :
    (default_workspace default_profile : String) (workspaces profiles : List (String × String))
    (m : Incoming)
    → let decision = route (make_router default_workspace default_profile workspaces profiles) m in
      (is_empty decision.workspace_id ≡ false) × (is_empty decision.profile_name ≡ false)
unfolding route make_router
route-present default_workspace default_profile workspaces profiles m =
    let r = make_router default_workspace default_profile workspaces profiles in
    (
      or_else-present _ (or_else default_workspace "default")
          (or_else-present default_workspace "default" refl),
      or_else-present _ (or_else default_profile "unleashed_local")
          (or_else-present default_profile "unleashed_local" refl),
    )
