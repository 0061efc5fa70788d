-- ===== src/Models/Router/Single.antt =====
-- `chat_single` asks each endpoint once, in order, until one answers.
use Prim.Native.String
use nova_adapt.Base.{
  String, false, ◌≡◌, refl, Option, none, some, List, [], ◌∷◌, ◌++◌, map, arith, All, All-imp, any,
  str_eq, eq_iff, Bool-cases, inl, inr, ◌||◌, string_eq,
}
use nova_adapt.Base.Text.{is_empty}
use nova_adapt.Base.Exec.{ok, raised, runtime_error}
use nova_adapt.Base.Table.Distinct.{Distinct}
use nova_adapt.Models.Router.{
  Router, Endpoint, Reply, answered, refused, Texts, dedupe_names, dedupe_from, resolve_model,
  attempt_all, chat_single, joined, ordered_names, usage_for_attempts,
}

abbrev pub self : String → String
self name = name

-- No name of the list is empty or in `seen`, and no two are the same.
dedupe_from-Distinct :
    (seen names : List String)
    → All (λ n. any (str_eq n) seen ≡ false) (dedupe_from seen names)
      × Distinct self (dedupe_from seen names)
unfolding dedupe_from
dedupe_from-Distinct seen [] = (tt, tt)
dedupe_from-Distinct seen (name ∷ names) =
    elim (Bool-cases (is_empty name || any (str_eq name) seen)) [
      | inl skipped ↦ rw skipped (dedupe_from-Distinct seen names)
      | inr kept ↦
          let rest = dedupe_from-Distinct (name ∷ seen) names in
          let later = dedupe_from (name ∷ seen) names in
          rw kept (
            (ground arith, All-imp later (λ n fresh. ground arith) rest.0),
            (
              All-imp later (λ n fresh. ground (arith, eq_iff n name, eq_iff name n)) rest.0,
              rest.1,
            ),
          )
    ]

-- `dedupe_names` leaves no name twice.
pub dedupe_names-Distinct : (names : List String) → Distinct self (dedupe_names names)
unfolding dedupe_names
dedupe_names-Distinct names = (dedupe_from-Distinct [] names).1

module _ (r : Router) (invoke : Endpoint → Reply) where
  -- The endpoint of the name raises.
  pub record Fails (f : String × String) : Type 0 where
    pub endpoint : Endpoint
    pub resolves : resolve_model r f.0 ≡ ok endpoint
    pub fails : invoke endpoint ≡ refused f.1

  abbrev pub names_of : Texts → List String
  names_of = map (λ f. f.0)

  attempt-answer :
      (failed : Texts) (name : String) (e : Endpoint) (content : String) (later : List String)
      → All Fails failed
      → resolve_model r name ≡ ok e
      → invoke e ≡ answered content
      → attempt_all r invoke (names_of failed ++ name ∷ later)
        ≡ ok (record {
          answer = some (e, content);
          errors = failed;
          attempted = names_of failed ++ name ∷ [];
        })
  unfolding attempt_all
  attempt-answer [] name e content later h found says = rw found (rw says refl)
  attempt-answer (f ∷ failed) name e content later h found says =
      let rest = attempt-answer failed name e content later h.1 found says in
      rw h.0.resolves (rw h.0.fails (rw rest refl))

  attempt-fail :
      (failed : Texts)
      → All Fails failed
      → attempt_all r invoke (names_of failed)
        ≡ ok (record { answer = none; errors = failed; attempted = names_of failed })
  unfolding attempt_all
  attempt-fail [] h = refl
  attempt-fail (f ∷ failed) h = rw h.0.resolves (rw h.0.fails (rw (attempt-fail failed h.1) refl))

  -- If the names to try, without repetitions, are some whose endpoints all raise, then one whose
  -- endpoint answers, then any others, the answer is the result: the endpoints before it, and only
  -- they, are reported as errors, and those behind it are not asked.
  pub first_answer_wins :
      (model_name : Option String) (fallbacks : List String) (failed : Texts) (name : String)
      (e : Endpoint) (content : String) (later : List String)
      → All Fails failed
      → ordered_names r model_name fallbacks ≡ names_of failed ++ name ∷ later
      → resolve_model r name ≡ ok e
      → invoke e ≡ answered content
      → chat_single r invoke model_name fallbacks
        ≡ ok (record {
          model_name = e.name;
          model_id = e.model;
          content = content;
          strategy = "single";
          votes = [];
          errors = failed;
          attempted_models = names_of failed ++ name ∷ [];
          usage = usage_for_attempts r (names_of failed ++ name ∷ []);
        })
  unfolding chat_single
  first_answer_wins model_name fallbacks failed name e content later h same found says =
      rw same (rw (attempt-answer failed name e content later h found says) refl)

  -- If the endpoints of all the names to try raise, `chat_single` raises with all their errors.
  pub no_answer_raises :
      (model_name : Option String) (fallbacks : List String) (failed : Texts)
      → All Fails failed
      → ordered_names r model_name fallbacks ≡ names_of failed
      → chat_single r invoke model_name fallbacks
        ≡ raised (runtime_error (String.◌++◌ "All model attempts failed: " (joined failed)))
  unfolding chat_single
  no_answer_raises model_name fallbacks failed h same = rw same (rw (attempt-fail failed h) refl)
