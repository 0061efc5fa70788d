-- ===== src/Models/Router/Vote.antt =====
-- The strategy `vote` of `ModelRouter` in shared/novaadapt_shared/model_router.py.
pub mod Majority
pub mod Quorum
use Prim.Native.String.{◌++◌}
use nova_adapt.Base.{
  ℕ, suc, ◌+◌, String, Bool, true, false, not, ◌&&◌, ◌||◌, ◌==◌, Option, none, some, List, [], ◌∷◌,
  map, if◌then◌else◌, ltb, leb, str_eq, get_or, take, length, max, string_eq, any, count, filter,
  find,
}
use nova_adapt.Base.Decimal.{show}
use nova_adapt.Base.Exec.{Result, ok, raised, value_error, runtime_error, Error}
use nova_adapt.Base.Table
use nova_adapt.Models.Router.{
  Router, Endpoint, endpoint_key, Reply, answered, refused, Texts, RouterResult, joined,
  dedupe_names, resolve_model, usage_for_attempts,
}

-- `counts.most_common(1)`, over the keys in the order of their first occurrence
most_common_from : List String → String × ℕ → List String → String × ℕ
most_common_from all_texts best [] = best
most_common_from all_texts best (t ∷ texts) =
    let n = count (str_eq t) all_texts in
    most_common_from all_texts (if ltb best.1 n then (t, n) else best) texts

unfoldable pub most_common : String → List String → String × ℕ
unfolding most_common_from
most_common t texts = most_common_from (t ∷ texts) (t, count (str_eq t) (t ∷ texts)) texts

-- `_majority_vote`, on outputs of which there is at least one
unfoldable pub majority_vote : (normalize : String → String) → String → List String → String × ℕ
unfolding most_common
majority_vote normalize output outputs =
    let (winner, n) = most_common (normalize output) (map normalize outputs) in
    (get_or output (find (λ item. str_eq (normalize item) winner) (output ∷ outputs)), n)

module _ (r : Router) where
  -- `_default_vote_models`
  unfoldable pub default_vote_models : List String
  default_vote_models = take r.default_vote_candidates (
      r.default_model ∷ filter (λ n. not (str_eq n r.default_model)) (map endpoint_key r.endpoints))

  -- `[self._resolve_model(name) for name in names]`
  unfoldable pub resolve_all : List String → Result (List Endpoint)
  unfolding resolve_model
  resolve_all [] = ok []
  resolve_all (name ∷ names) =
      let rest = resolve_all names in
      elim (resolve_model r name) [
        | raised e ↦ raised e
        | ok e ↦ elim rest [ raised x ↦ raised x | ok es ↦ ok (e ∷ es) ]
      ]

  -- What one future adds to the dicts `votes` and `errors`.
  abbrev pub collected : Endpoint → Reply → Texts × Texts → Texts × Texts
  collected e (answered value) (votes, errors) = ((e.name, value) ∷ votes, errors)
  collected e (refused text) (votes, errors) = (votes, (e.name, text) ∷ errors)

  -- The two dicts, from the endpoints in the order in which their calls ended; a dict has each of them
  -- once, as the names are all different.
  unfoldable pub collect : (Endpoint → Reply) → List Endpoint → Texts × Texts
  collect invoke [] = ([], [])
  collect invoke (e ∷ es) = let rest = collect invoke es in collected e (invoke e) rest

  lookup : String → Texts → Option String
  lookup k [] = none
  lookup k ((j, v) ∷ texts) = if str_eq j k then some v else lookup k texts

  -- The candidate whose vote says what was chosen.
  unfoldable pub winner_of : (String → String) → String → Texts → String → List String → String
  unfolding lookup
  winner_of normalize chosen votes fallback [] = fallback
  winner_of normalize chosen votes fallback (name ∷ names) =
      let later = winner_of normalize chosen votes fallback names in
      elim (lookup name votes) [
        | none ↦ later
        | some v ↦ if str_eq (normalize v) (normalize chosen) then name else later
      ]

  model_of : String → String
  model_of name = elim (Table.select endpoint_key name r.endpoints) [ none ↦ "" | some e ↦ e.model ]

  -- The end of `_chat_vote`; the numbers of `vote_summary` are left out, as they can be read off the
  -- votes.
  unfoldable pub elected :
      (String → String) → String → List String → Texts → Texts → String × ℕ → Result RouterResult
  unfolding model_of winner_of usage_for_attempts
  elected normalize name names votes errors (chosen, n) =
      let winner = winner_of normalize chosen votes name (name ∷ names) in
      if ltb n r.min_vote_agreement
      then raised (
          runtime_error (
            "Vote quorum not met: winner_votes="
            ++ (show n ++ (", required_votes=" ++ show r.min_vote_agreement))))
      else ok (record {
        model_name = winner;
        model_id = model_of winner;
        content = chosen;
        strategy = "vote";
        votes = votes;
        errors = errors;
        attempted_models = name ∷ names;
        usage = usage_for_attempts r (name ∷ names);
      })

  -- `_chat_vote`, from the outputs on.
  unfoldable pub vote_result :
      (String → String) → String → List String → Texts × Texts → Result RouterResult
  unfolding elected majority_vote
  vote_result normalize name names ([], errors) =
      raised (runtime_error ("All vote candidates failed: " ++ joined errors))
  vote_result normalize name names ((voter, output) ∷ votes, errors) =
      elected normalize name names ((voter, output) ∷ votes) errors
        (majority_vote normalize output (map (λ v. v.1) votes))

  vote_among :
      (String → String)
      → (List Endpoint → List Endpoint)
      → (Endpoint → Reply)
      → String
      → List String
      → Result (List Endpoint)
      → Result RouterResult
  unfolding collect vote_result
  vote_among normalize as_completed invoke name names (raised e) = raised e
  vote_among normalize as_completed invoke name names (ok endpoints) =
      vote_result normalize name names (collect invoke (as_completed endpoints))

  vote_on :
      (String → String)
      → (List Endpoint → List Endpoint)
      → (Endpoint → Reply)
      → List String
      → Result RouterResult
  unfolding resolve_all vote_among
  vote_on normalize as_completed invoke [] =
      raised (value_error "candidate_models must not be empty when strategy='vote'")
  vote_on normalize as_completed invoke (name ∷ names) =
      if ltb (length (name ∷ names)) r.min_vote_agreement
      then raised (
          value_error (
            "min_vote_agreement="
            ++ (show r.min_vote_agreement
                ++ (" exceeds vote candidates=" ++ show (length (name ∷ names))))))
      else vote_among normalize as_completed invoke name names (resolve_all (name ∷ names))

  -- `_chat_vote`; `as_completed` is the order in which the calls, which run at the same time, end.
  unfoldable pub chat_vote :
      (normalize : String → String) (as_completed : List Endpoint → List Endpoint)
      (invoke : Endpoint → Reply) (candidate_models : List String)
      → Result RouterResult
  unfolding vote_on default_vote_models dedupe_names
  chat_vote normalize as_completed invoke [] =
      vote_on normalize as_completed invoke (dedupe_names default_vote_models)
  chat_vote normalize as_completed invoke (c ∷ candidates) =
      vote_on normalize as_completed invoke (dedupe_names (c ∷ candidates))
