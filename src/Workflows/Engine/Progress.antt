-- ===== src/Workflows/Engine/Progress.antt =====
-- A workflow runs to its end: from `start`, one error-free `advance` for each step.
use native.Mathlib.Numerals.{add-one}
use native.Mathlib.Nat.{add-zero}
use nova_adapt.Base.{
  ℕ, zero, suc, ◌+◌, ◌≤◌, ◌<◌, String, string_eq, ◌≡◌, refl, sym, subst, ap, false, Option, none,
  some, List, [], ◌∷◌, arith, if◌then◌else◌, length, leb, Bool-cases, inl, inr, leb→le,
}
use nova_adapt.Base.Text.{strip, is_empty}
use nova_adapt.Base.Json.{Fields, str, get, get-put}
use nova_adapt.Base.Exec.{ok}
use nova_adapt.Workflows.Store.{WorkflowRecord, select}
use nova_adapt.Workflows.Store.Laws.{IsId}
use nova_adapt.Workflows.Engine.{
  Engine, start, advance, current_step, step_done, finish_step, is_closed,
}
use nova_adapt.Workflows.Engine.Step.{advanced, advance_step}
use nova_adapt.Workflows.Engine.Start.{queued, start_lem, current_step-queued}

-- The first `k` steps are marked done, and the others are as they were given.
abbrev pub Finished : ℕ → List Fields → List Fields → Type 0
Finished zero steps given = steps ≡ given
Finished (suc k) [] given = ⊥
Finished (suc k) (x ∷ steps) [] = ⊥
Finished (suc k) (x ∷ steps) (y ∷ given) =
    (get "status" x ≡ some (str "done")) × Finished k steps given

-- The status of a workflow of `n` steps after `k` of them.
abbrev pub status_at : ℕ → ℕ → String
status_at n zero = "queued"
status_at n (suc k) = if leb n (suc k) then "done" else "running"

status-step_done :
    (result : Option Fields) (x : Fields) → get "status" (step_done result x) ≡ some (str "done")
status-step_done none x = rw get-put
status-step_done (some result) x = rw get-put (rw get-put)

finish_step-cons :
    (result : Option Fields) (k : ℕ) (x : Fields) (steps : List Fields)
    → finish_step result (suc k) (x ∷ steps) ≡ x ∷ finish_step result k steps
finish_step-cons result k x steps = ground arith

length-finish_step :
    (result : Option Fields) (k : ℕ) (steps : List Fields)
    → length (finish_step result k steps) ≡ length steps
length-finish_step result k [] = refl
length-finish_step result zero (x ∷ steps) = refl
length-finish_step result (suc k) (x ∷ steps) =
    rw finish_step-cons (omega (arith, length-finish_step result k steps))

Finished-finish_step :
    (result : Option Fields) (k : ℕ) (steps given : List Fields)
    → k < length given
    → Finished k steps given
    → Finished (suc k) (finish_step result k steps) given
Finished-finish_step result zero [] [] more h = absurd (omega arith)
Finished-finish_step result zero [] (y ∷ given) more h = cc
Finished-finish_step result zero (x ∷ steps) [] more h = absurd (omega arith)
Finished-finish_step result zero (x ∷ steps) (y ∷ given) more h =
    (status-step_done result x, ground arith)
Finished-finish_step result (suc k) [] given more h = absurd h
Finished-finish_step result (suc k) (x ∷ steps) [] more h = absurd h
Finished-finish_step result (suc k) (x ∷ steps) (y ∷ given) more h =
    rw finish_step-cons (h.0, Finished-finish_step result k steps given (omega arith) h.1)

length-Finished :
    (k : ℕ) (steps given : List Fields) → Finished k steps given → length steps ≡ length given
length-Finished zero steps given h = ap length h
length-Finished (suc k) [] given h = absurd h
length-Finished (suc k) (x ∷ steps) [] h = absurd h
length-Finished (suc k) (x ∷ steps) (y ∷ given) h = omega (arith, length-Finished k steps given h.1)

-- The record under `wid` says that the workflow, given as `steps`, has finished `k` of them.
pub record IsAt (steps : List Fields) (k : ℕ) (r : WorkflowRecord) : Type 0 where
  pub status : r.status ≡ status_at (length steps) k
  pub at : current_step r.context ≡ ok k
  pub finished : Finished k r.steps steps
  pub no_error : r.last_error ≡ ""

status_at-open : (n k : ℕ) → k < n → is_closed (status_at n k) ≡ false
status_at-open n zero h = refl
status_at-open n (suc k) h = elim (Bool-cases (leb n (suc k))) [
  | inl past ↦ absurd (omega (arith, leb→le n (suc k) past))
  | inr before ↦ rw before
]

IsAt-advanced :
    (now : ℕ) (result : Option Fields) (k : ℕ) (steps : List Fields) (r : WorkflowRecord)
    → k < length steps
    → IsAt steps k r
    → IsAt steps (suc k) (advanced now result k r)
IsAt-advanced now result k steps r more h = record {
  status =
      rw (length-finish_step result k r.steps)
        (rw (length-Finished k r.steps steps h.finished) (rw add-one));
  at = rw get-put (rw add-one);
  finished = Finished-finish_step result k r.steps steps more h.finished;
  no_error = refl;
}

-- A call of `advance` for each entry, with its clock reading and its result.
abbrev pub run : String → List (ℕ × Option Fields) → Engine → Engine
run wid [] s = s
run wid ((now, result) ∷ calls) s = run wid calls (advance now wid result "" s).1

-- After `start` and error-free calls for some of the steps.
run-IsAt :
    (steps : List Fields) (wid : String) (id : IsId wid) (calls : List (ℕ × Option Fields)) (k : ℕ)
    (s : Engine) (r : WorkflowRecord)
    → select wid s.store ≡ some r
    → IsAt steps k r
    → k + length calls ≤ length steps
    → (r' : WorkflowRecord) × (select wid (run wid calls s).store ≡ some r')
      × IsAt steps (k + length calls) r'
run-IsAt steps wid id [] k s r stored h room = (r, stored, rw add-zero h)
run-IsAt steps wid id ((now, result) ∷ calls) k s r stored h room =
    let open_status =
      subst (λ t. is_closed t ≡ false) (sym h.status)
        (status_at-open (length steps) k (omega arith)) in
    let len : length r.steps ≡ length steps = length-Finished k r.steps steps h.finished in
    let next = advance_step now result k s r open_status h.at (omega (arith, len)) wid id stored in
    let count : suc k + length calls ≡ k + suc (length calls) = omega arith in
    rw (← count) (
      run-IsAt steps wid id calls (suc k) (advance now wid result "" s).1 (advanced now result k r)
        next.1 (IsAt-advanced now result k steps r (omega arith) h) (omega arith))

module _ (now : ℕ) (fresh objective : String) (steps : List Fields) (context : Fields)
    (wid : String) (s : Engine) (calls : List (ℕ × Option Fields)) (id : IsId wid)
    (named : is_empty (strip objective) ≡ false) (unused : select wid s.store ≡ none)
    (no_step : get "current_step" context ≡ none) (room : length calls ≤ length steps) where
  abbrev started : Engine
  started = (start now fresh objective steps context wid s).1

  -- After `start`, with an objective that is not blank, with an unused identifier that is not empty and has
  -- no blanks at its ends, and with a context that names no current step, and after as many error-free calls
  -- of `advance` as there are `calls`, at most one for each step, the stored record has finished exactly that
  -- many steps: its context counts them, the first ones are marked done and the others are as given, it holds
  -- no error, and its status is "queued" before the first call, "done" after the last step and "running"
  -- between.
  pub run_progress :
      (r : WorkflowRecord) × (select wid (run wid calls started).store ≡ some r)
      × IsAt steps (length calls) r
  run_progress =
      let (_, stored) = start_lem now fresh objective steps context wid s id named unused in
      let fresh_row = queued now objective steps context wid in
      let begins : IsAt steps 0 fresh_row = record {
        status = refl;
        at = current_step-queued context no_step;
        finished = refl;
        no_error = refl;
      } in
      let count : zero + length calls ≡ length calls = omega arith in
      rw (← count) (run-IsAt steps wid id calls 0 started fresh_row stored begins (omega arith))
