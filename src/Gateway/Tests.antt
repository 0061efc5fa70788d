-- ===== src/Gateway/Tests.antt =====
-- A queue of two jobs, and the theorems at concrete inputs.
use nova_adapt.Base.{
  ◌≤◌, true, ◌≡◌, ◌↔◌, refl, none, some, List, [], ◌∷◌, arith, All, count, str_eq, if◌then◌else◌,
  ◌&&◌, ◌+◌, filter,
}
use nova_adapt.Base.Json.{end}
use nova_adapt.Base.Text.{strip}
use nova_adapt.Base.Lower.{lower}
use nova_adapt.Base.Table
use nova_adapt.Base.Order.{order_by}
use nova_adapt.Gateway.Queue.{
  JobRecord, Target, Queue, claim_next, mark_failed, queued_job, running, row_to_job, is_pending,
  select_job,
}
use nova_adapt.Gateway.Queue.Claim.{Claims, claim_next-Claims, IsKeyed}
use nova_adapt.Gateway.Worker.{WorkerConfig, threw}
use nova_adapt.Gateway.Worker.Retries.{is_for}
use nova_adapt.Gateway.Worker.Bounded.{Event, work, play, runs_bounded}
use nova_adapt.Gateway.Delivery.{Post, deliver, Resolver}
use nova_adapt.Gateway.Delivery.Counts.{deliver_counts, succeeds}
use nova_adapt.Gateway.Delivery.Once.{delivered_once}
use nova_adapt.Gateway.Delivery.Settled.{deliver-due, Settled, DueNormal, after}
use nova_adapt.Gateway.Router.{Incoming}

abbrev job_a : JobRecord
job_a = queued_job 5 end "a" "" "" none ""

abbrev job_b : JobRecord
job_b = queued_job 3 end "b" "" "" none ""

abbrev two_jobs : Queue
two_jobs = record { jobs = job_a ∷ job_b ∷ []; deliveries = [] }

two_jobs-IsKeyed : IsKeyed two_jobs
unfolding Table.select
two_jobs-IsKeyed = (refl, (refl, tt))

abbrev claimed_b : JobRecord
claimed_b = row_to_job (running 9 job_b)

claims_b : (claim_next 9 two_jobs).0 ≡ some claimed_b
unfolding claim_next order_by
claims_b = refl

claim_next-Claims_example : Claims 9 two_jobs claimed_b (claim_next 9 two_jobs).1
claim_next-Claims_example = claim_next-Claims 9 two_jobs claimed_b two_jobs-IsKeyed claims_b

abbrev running_queue : Queue
running_queue = record { jobs = running 9 job_a ∷ []; deliveries = [] }

nothing_due : (claim_next 9 running_queue).0 ≡ none
unfolding claim_next order_by
nothing_due = refl

abbrev waiting_a : JobRecord
waiting_a = record job_a {
  status = "retry_wait";
  attempts = 1;
  next_retry_at = some 1000020;
  updated_at = 20;
}

a_failed : select_job "a" (mark_failed 20 0 3 "a" running_queue).1 ≡ some waiting_a
unfolding mark_failed Table.select Table.update
a_failed = refl

a_found : select_job "a" running_queue ≡ some (running 9 job_a)
unfolding Table.select
a_found = refl

abbrev settings : WorkerConfig
settings = record {
  runner = λ j. threw "boom";
  to_text = λ v. "";
  retry_delay = 0;
  max_attempts = 2;
}

abbrev turns : List Event
turns = work 10 11 ∷ work 2000000 2000001 ∷ work 4000000 4000001 ∷ []

runs_bounded_example : count (is_for "a") (play settings turns two_jobs).0 ≤ 2
unfolding Table.select
runs_bounded_example =
    runs_bounded settings "a" turns two_jobs job_a
      (record { keyed = two_jobs-IsKeyed; budget = ((λ h. omega arith), ((λ h. omega arith), tt)) })
      refl

abbrev discord : Target
discord = record {
  job_id = "a";
  connector = "discord";
  address = "#ops";
  token = "";
  status = "pending";
  last_error = "";
  last_attempt_at = none;
}

abbrev only_slack : Resolver
only_slack = λ name. if str_eq name "slack" then some (λ m. none) else none

abbrev mailbox : Post
mailbox = record { queue = record { jobs = []; deliveries = discord ∷ [] }; sent = [] }

deliver_counts_example :
    let tally = (deliver only_slack 7 "a" "done" mailbox).0 in
    (tally.attempted ≡ 1)
    × (tally.sent ≡ count (λ t. is_pending "a" t && succeeds only_slack "done" t) (discord ∷ []))
    × (tally.sent + tally.failed ≡ tally.attempted)
    × ((tally.ok ≡ true) ↔ (tally.sent ≡ tally.attempted))
deliver_counts_example = deliver_counts only_slack 7 "a" "done" mailbox

discord-normal : DueNormal "a" (discord ∷ [])
unfolding strip lower
discord-normal = (record { connector = refl; address = refl }, tt)

deliver-due_example :
    All
      (Settled only_slack 7 "a" "done" (after only_slack 7 "a" "done" mailbox))
      (filter (is_pending "a") (discord ∷ []))
unfolding Table.select
deliver-due_example = deliver-due only_slack 7 "a" "done" mailbox (refl, tt) discord-normal

abbrev hello : Incoming
hello = record {
  channel = " Ops ";
  connector = "discord";
  workspace_id = "";
  profile_name = "";
  policy_profile = "";
}

abbrev only_discord : Resolver
only_discord = λ name. if str_eq name "discord" then some (λ m. none) else none

delivered_once_example :
    let p' = (deliver only_discord 7 "a" "Job a failed: boom" mailbox).1 in
    deliver only_discord 9 "a" "done" p'
    ≡ (record { ok = true; job_id = "a"; attempted = 0; sent = 0; failed = 0 }, p')
unfolding strip lower
delivered_once_example =
    delivered_once only_discord 7 "a" "Job a failed: boom" mailbox only_discord 9 "done"
      discord-normal (refl, tt)
