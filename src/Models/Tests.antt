-- ===== src/Models/Tests.antt =====
-- Three endpoints, and the theorems at concrete inputs.
use nova_adapt.Base.{
  List, ◌≤◌, String, ◌≡◌, refl, none, [], ◌∷◌, All, str_eq, if◌then◌else◌, string_eq,
}
use nova_adapt.Base.Exec.{Result, ok, raised, runtime_error}
use nova_adapt.Base.Table
use nova_adapt.Base.{true, some, arith, map, get_or}
use nova_adapt.Base.Text.{strip}
use nova_adapt.Models.Router.Decompose.{
  Crew, Subtask, Output, Answer, Ended, finished, unresolved, run_batches, begin, clean, completed,
}
use nova_adapt.Models.Router.Decompose.Ends.{Named}
use nova_adapt.Models.Router.Decompose.Chat.{Decomposed, chat_decompose, decompose_returns}
use nova_adapt.Models.Router.Decompose.Dependencies.{InOrder, progress_of, outputs_in_order}
use nova_adapt.Models.Router.{
  RouterResult, joined, Router, Endpoint, Reply, answered, refused, dedupe_names, chat_single,
  resolve_model, ordered_names, usage_for_attempts,
}
use nova_adapt.Models.Router.Single.{Fails, first_answer_wins, no_answer_raises}
use nova_adapt.Models.Router.Vote.{
  majority_vote, chat_vote, resolve_all, collect, vote_result, default_vote_models, elected,
  most_common, winner_of,
}
use nova_adapt.Models.Router.Vote.Quorum.{quorum_met, support, IsVote}

abbrev local_model : Endpoint
local_model = record { name = "local"; model = "qwen" }

abbrev cloud_model : Endpoint
cloud_model = record { name = "cloud"; model = "gpt" }

abbrev two_models : Router
two_models = record {
  endpoints = local_model ∷ cloud_model ∷ [];
  default_model = "local";
  default_vote_candidates = 3;
  min_vote_agreement = 1;
}

abbrev only_cloud : Endpoint → Reply
only_cloud e = if str_eq e.name "cloud" then answered "tea" else refused "down"

local-Fails : Fails two_models only_cloud ("local", "down")
unfolding resolve_model Table.select
local-Fails = record { endpoint = local_model; resolves = refl; fails = refl }

cloud-found : resolve_model two_models "cloud" ≡ ok cloud_model
unfolding resolve_model Table.select
cloud-found = refl

names_are : ordered_names two_models none ("cloud" ∷ "local" ∷ []) ≡ "local" ∷ "cloud" ∷ []
unfolding dedupe_names
names_are = refl

first_answer_wins_example :
    chat_single two_models only_cloud none ("cloud" ∷ "local" ∷ [])
    ≡ ok (record {
      model_name = "cloud";
      model_id = "gpt";
      content = "tea";
      strategy = "single";
      votes = [];
      errors = ("local", "down") ∷ [];
      attempted_models = "local" ∷ "cloud" ∷ [];
      usage = usage_for_attempts two_models ("local" ∷ "cloud" ∷ []);
    })
first_answer_wins_example =
    first_answer_wins two_models only_cloud none ("cloud" ∷ "local" ∷ []) (("local", "down") ∷ [])
      "cloud" cloud_model "tea" [] (local-Fails, tt) names_are cloud-found refl

name_is : ordered_names two_models none [] ≡ "local" ∷ []
unfolding dedupe_names
name_is = refl

no_answer_raises_example :
    chat_single two_models only_cloud none []
    ≡ raised (runtime_error "All model attempts failed: local: down")
unfolding joined
no_answer_raises_example =
    no_answer_raises two_models only_cloud none [] (("local", "down") ∷ []) (local-Fails, tt)
      name_is

abbrev unchanged : String → String
unchanged s = s

abbrev agreed_result : RouterResult
agreed_result = record {
  model_name = "local";
  model_id = "qwen";
  content = "tea";
  strategy = "vote";
  votes = ("local", "tea") ∷ ("cloud", "tea") ∷ [];
  errors = [];
  attempted_models = "local" ∷ "cloud" ∷ [];
  usage = ("local", (1, "qwen")) ∷ ("cloud", (1, "gpt")) ∷ [];
}

abbrev tea : Endpoint → Reply
tea e = answered "tea"

abbrev in_order : List Endpoint → List Endpoint
in_order es = es

tea_vote : chat_vote two_models unchanged in_order tea [] ≡ ok agreed_result
unfolding chat_vote dedupe_names default_vote_models resolve_all resolve_model collect vote_result
    elected majority_vote most_common winner_of usage_for_attempts Table.select
tea_vote = refl

quorum_met_example :
    (1 ≤ support unchanged "tea" agreed_result.votes) × All (IsVote tea) agreed_result.votes
quorum_met_example = quorum_met two_models unchanged in_order tea [] agreed_result tea_vote

-- Models that agree to everything, and futures that complete in the order of the batch.
abbrev calm_crew : Crew
calm_crew = record {
  chat = λ request model. ok (record { model_name = model; content = "fine" });
  parse_review = λ text. record { approved = true; feedback = "" };
  completion = λ ts. ts;
  error_text = λ e. "error";
}

abbrev task : String → List String → Subtask
task id depends_on = record {
  id = id;
  objective = "write";
  model = "";
  agent = "";
  depends_on = depends_on;
  review_with = "a";
}

-- The second subtask waits for the third.
abbrev tasks : List Subtask
tasks = task "s1" [] ∷ task " s2" ("s3" ∷ []) ∷ task "s3" [] ∷ []

abbrev a_synthesis : List Output → Result Answer
a_synthesis outputs = ok (record { model_name = "a"; content = "all" })

abbrev a_chat : Result Answer
a_chat = ok (record { model_name = "a"; content = "one" })

tasks-Named : All (Named calm_crew ("a" ∷ []) 2 1) tasks
unfolding strip
tasks-Named = (refl, (refl, (refl, tt)))

decompose_returns_example :
    (r : Result Decomposed) × (chat_decompose calm_crew ("a" ∷ []) 2 1 a_chat a_synthesis (ok tasks)
      ≡ some r)
decompose_returns_example =
    decompose_returns calm_crew ("a" ∷ []) 2 1 a_chat a_synthesis tasks (omega arith) (λ p ts. refl)
      tasks-Named

abbrev output_ids : Ended → List String
output_ids (finished g) = map (λ o. o.id) g.outputs
output_ids (unresolved ids g) = []

abbrev an_end : Ended
an_end =
    get_or (unresolved [] (begin calm_crew ("a" ∷ []) 2 1))
      (run_batches calm_crew ("a" ∷ []) 2 1 4 tasks (begin calm_crew ("a" ∷ []) 2 1))

tasks_run : output_ids an_end ≡ "s1" ∷ "s3" ∷ "s2" ∷ []
unfolding run_batches strip clean completed
tasks_run = refl

tasks_end :
    run_batches calm_crew ("a" ∷ []) 2 1 4 tasks (begin calm_crew ("a" ∷ []) 2 1) ≡ some an_end
unfolding run_batches strip clean completed
tasks_end = refl

outputs_in_order_example : InOrder [] (progress_of calm_crew ("a" ∷ []) 2 1 an_end).outputs
outputs_in_order_example =
    outputs_in_order calm_crew ("a" ∷ []) 2 1 (λ p ts. refl) 4 tasks
      (begin calm_crew ("a" ∷ []) 2 1) an_end tt tasks_end
