-- ===== src/Gateway/Daemon/Guards.antt =====
-- When the gateway may start.
use nova_adapt.Base.{
  String, ◌≡◌, ◌↔◌, refl, true, List, [], ◌∷◌, Bool-cases, inl, inr, Option, get_or, All,
}
use nova_adapt.Base.Text.{is_empty}
use nova_adapt.Base.Exec.{ok}
use nova_adapt.Gateway.Daemon.{check_keys, assert_no_llm_env, forbidden_llm_keys}

abbrev pub IsUnset : (String → Option String) → String → Type 0
IsUnset env k = is_empty (get_or "" (env k)) ≡ true

check_keys_iff :
    (env : String → Option String) (keys : List String)
    → (check_keys env keys ≡ ok tt) ↔ All (IsUnset env) keys
unfolding check_keys
check_keys_iff env [] = (λ h. tt, λ h. refl)
check_keys_iff env (k ∷ keys) = elim (Bool-cases (is_empty (get_or "" (env k)))) [
  | inl unset ↦
      rw unset (λ h. (refl, (check_keys_iff env keys).0 h), λ h. (check_keys_iff env keys).1 h.1)
  | inr present ↦ rw present (λ h. absurd (cc), λ h. absurd (cc))
]

-- `assert_no_llm_env` passes exactly if each of the four API keys is unset or empty in the environment.
pub assert_no_llm_env_iff :
    (env : String → Option String)
    → (assert_no_llm_env env ≡ ok tt) ↔ All (IsUnset env) forbidden_llm_keys
unfolding assert_no_llm_env
assert_no_llm_env_iff env = check_keys_iff env forbidden_llm_keys
