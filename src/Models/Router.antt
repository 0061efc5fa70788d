-- ===== src/Models/Router.antt =====
-- `ModelRouter` of shared/novaadapt_shared/model_router.py: the strategy `single`. What a
-- call of an endpoint gives for the messages at hand is a parameter, and so is `_normalize`, which
-- reads and writes JSON. Costs, which are floating-point numbers, are left out.
pub mod Single
pub mod Vote
pub mod Decompose
use Prim.Native.String.{◌++◌}
use nova_adapt.Base.{
  ℕ, suc, ◌+◌, String, Bool, true, false, not, ◌&&◌, ◌||◌, ◌==◌, Option, none, some, List, [], ◌∷◌,
  map, if◌then◌else◌, ltb, leb, str_eq, get_or, take, length, max, string_eq, any, count, filter,
  find,
}
use nova_adapt.Base.Decimal.{show}
use nova_adapt.Base.Text.{is_empty, or_else}
use nova_adapt.Base.Exec.{Result, ok, raised, value_error, runtime_error, Error}
use nova_adapt.Base.Table

-- `ModelEndpoint`, without what a call alone reads.
pub record Endpoint : Type 0 where
  pub name : String
  pub model : String

pub record Router : Type 0 where
  pub endpoints : List Endpoint
  pub default_model : String
  pub default_vote_candidates : ℕ
  pub min_vote_agreement : ℕ

abbrev pub endpoint_key : Endpoint → String
endpoint_key e = e.name

-- `{endpoint.name: endpoint for endpoint in endpoints}`
abbrev pub by_name : List Endpoint → List Endpoint → List Endpoint
by_name out [] = out
by_name out (e ∷ es) =
    by_name (Table.upsert endpoint_key e (λ old. record e { name = old.name }) out) es

-- `ModelRouter(…)`
unfoldable pub make_router :
    List Endpoint → (default_model : String) (candidates agreement : ℕ) → Result Router
make_router [] default_model candidates agreement =
    raised (value_error "ModelRouter requires at least one endpoint")
make_router (e ∷ es) default_model candidates agreement =
    let endpoints = by_name [] (e ∷ es) in
    elim (Table.select endpoint_key default_model endpoints) [
      | none ↦
          raised (value_error ("Default model '" ++ (default_model ++ "' not found in endpoints")))
      | some found ↦ ok (record {
        endpoints = endpoints;
        default_model = default_model;
        default_vote_candidates = max 1 candidates;
        min_vote_agreement = max 1 agreement;
      })
    ]

-- What `_invoke` does: it returns a text, or raises with one.
pub data Reply : Type 0 where
  answered : String → Reply
  refused : String → Reply

-- A dict with text keys and text values.
abbrev pub Texts : Type 0
Texts = List (String × String)

-- `"; ".join(f"{k}: {v}" for k, v in errors.items())`
unfoldable pub joined : Texts → String
joined [] = ""
joined ((k, v) ∷ errors) =
    let rest = joined errors in
    let entry = k ++ (": " ++ v) in if is_empty rest then entry else entry ++ ("; " ++ rest)

pub record RouterResult : Type 0 where
  pub model_name : String
  pub model_id : String
  pub content : String
  pub strategy : String
  pub votes : Texts
  pub errors : Texts
  pub attempted_models : List String
  -- name, calls and model id
  pub usage : List (String × (ℕ × String))

dedupe_from : List String → List String → List String
dedupe_from seen [] = []
dedupe_from seen (name ∷ names) =
    let skipped = dedupe_from seen names in
    let kept = name ∷ dedupe_from (name ∷ seen) names in
    if is_empty name || any (str_eq name) seen then skipped else kept

-- `_dedupe_names`
unfoldable pub dedupe_names : List String → List String
unfolding dedupe_from
dedupe_names names = dedupe_from [] names

-- What the loop of `_chat_single` has come to when it ends.
pub record Attempts : Type 0 where
  pub answer : Option (Endpoint × String)
  pub errors : Texts
  pub attempted : List String

module _ (r : Router) where
  -- `_resolve_model`, on a name that is there
  unfoldable pub resolve_model : String → Result Endpoint
  resolve_model name = elim (Table.select endpoint_key name r.endpoints) [
    | none ↦ raised (value_error ("Unknown model endpoint '" ++ (name ++ "'")))
    | some e ↦ ok e
  ]

  usage_of : List String → List String → List (String × (ℕ × String))
  usage_of attempts [] = []
  usage_of attempts (name ∷ names) =
      (
        name,
        (
          count (str_eq name) attempts,
          elim (Table.select endpoint_key name r.endpoints) [ none ↦ "" | some e ↦ e.model ],
        ),
      )
      ∷ usage_of attempts names

  -- `_usage_for_attempts`, on attempts that all have an endpoint
  unfoldable pub usage_for_attempts : List String → List (String × (ℕ × String))
  unfolding usage_of dedupe_names
  usage_for_attempts attempts = usage_of attempts (dedupe_names attempts)

  -- The names that `_chat_single` goes through; the default model has a name.
  abbrev pub ordered_names : Option String → List String → List String
  ordered_names model_name fallback_models =
      dedupe_names (or_else (get_or "" model_name) r.default_model ∷ fallback_models)

  module _ (invoke : Endpoint → Reply) where
    abbrev failing : String → String → Result Attempts → Result Attempts
    failing name text (raised e) = raised e
    failing name text (ok a) =
        ok (record a { errors = (name, text) ∷ a.errors; attempted = name ∷ a.attempted })

    abbrev replied : Endpoint → String → Reply → Result Attempts → Result Attempts
    replied e name (answered content) rest =
        ok (record { answer = some (e, content); errors = []; attempted = name ∷ [] })
    replied e name (refused text) rest = failing name text rest

    abbrev attempt_one : String → Result Endpoint → Result Attempts → Result Attempts
    attempt_one name (raised e) rest = raised e
    attempt_one name (ok e) rest = replied e name (invoke e) rest

    -- The loop over the names, which are all different; the first that answers ends it.
    unfoldable pub attempt_all : List String → Result Attempts
    unfolding resolve_model
    attempt_all [] = ok (record { answer = none; errors = []; attempted = [] })
    attempt_all (name ∷ names) =
        let rest = attempt_all names in attempt_one name (resolve_model name) rest

    abbrev single_result : Result Attempts → Result RouterResult
    single_result (raised e) = raised e
    single_result (ok a) = elim a.answer [
      | none ↦ raised (runtime_error ("All model attempts failed: " ++ joined a.errors))
      | some (e, content) ↦ ok (record {
        model_name = e.name;
        model_id = e.model;
        content = content;
        strategy = "single";
        votes = [];
        errors = a.errors;
        attempted_models = a.attempted;
        usage = usage_for_attempts a.attempted;
      })
    ]

    -- `_chat_single`
    unfoldable pub chat_single : Option String → List String → Result RouterResult
    chat_single model_name fallback_models =
        single_result (attempt_all (ordered_names model_name fallback_models))
