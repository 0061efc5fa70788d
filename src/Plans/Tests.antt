-- ===== src/Plans/Tests.antt =====
-- One plan, one action, and the theorems at concrete inputs.
use nova_adapt.Base.{String, true, ◌≡◌, refl, none, some, List, [], ◌∷◌, arith}
use nova_adapt.Base.Json.{Fields, end, Value, null, str, field, get}
use nova_adapt.Base.Text.{strip}
use nova_adapt.Base.Lower.{lower}
use nova_adapt.Base.Find.{occurs_in}
use nova_adapt.Base.Table
use nova_adapt.Plans.PlanStore
use nova_adapt.Plans.PlanStore.{PlanRecord, NewPlan, Plans, Report, Progress, new_record}
use nova_adapt.Plans.PlanStore.Times.{
  Operation, starts, fails, approves, apply_all, Has, plan_stays,
}
use nova_adapt.Plans.UndoQueue.{UndoQueue, record_action, latest_pending, mark_undone, logged}
use nova_adapt.Plans.UndoQueue.Order.{undo_is_lifo}
use nova_adapt.Plans.Policy.{is_dangerous, entry}
use nova_adapt.Plans.Policy.Gate.{dangerous_word}

abbrev plan_payload : NewPlan
plan_payload = record {
  id = "p1";
  objective = "buy tea";
  strategy = none;
  model = null;
  model_id = null;
  actions = end ∷ [];
  votes = null;
  vote_summary = null;
  model_errors = null;
  attempted_models = null;
  collaboration = null;
  status = none;
  progress_completed = none;
  progress_total = none;
  repair = none;
}

abbrev a_plan : PlanRecord
a_plan = new_record 1 "x" plan_payload

abbrev one_plan : Plans
one_plan = a_plan ∷ []

found : PlanStore.get "p1" one_plan ≡ some a_plan
unfolding PlanStore.get Table.select
found = refl

abbrev no_report : Report
no_report = record { results = none; log_ids = none; completed = none; total = none; repair = none }

abbrev plan_calls : List Operation
plan_calls =
    starts 2 "p1" 1
    ∷ fails 3 "p1" "boom" no_report
    ∷ starts 4 "p1" 1
    ∷ approves 5 "p1" "executed" no_report
    ∷ []

plan_stays_example : Has "p1" a_plan (apply_all plan_calls one_plan)
plan_stays_example = plan_stays "p1" a_plan plan_calls one_plan found

abbrev one_action : UndoQueue
one_action = record { rows = logged 1 4 end "ok" none ∷ []; last_id = 4 }

undo_is_lifo_example :
    let (id, q) = record_action 2 end "ok" (some end) one_action in
    (latest_pending q ≡ some (logged 2 5 end "ok" (some end)))
    × ((mark_undone id q).0 ≡ true)
    × (latest_pending (mark_undone id q).1 ≡ latest_pending one_action)
undo_is_lifo_example = undo_is_lifo 2 end "ok" (some end) one_action (omega arith, tt)

abbrev wipe : Fields
wipe = field "type" (str "Click") (field "target" (str "Factory Reset now") end)

abbrev plain_text : Value → String
plain_text v = elim v [ str s ↦ s | _ ↦ "" ]

dangerous_word_example : is_dangerous plain_text wipe ≡ true
unfolding entry get strip lower occurs_in
dangerous_word_example = dangerous_word plain_text wipe "factory reset" refl refl

abbrev remove_it : Fields
remove_it = field "type" (str " Remove") end
