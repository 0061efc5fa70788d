-- ===== src/Workflows/Engine/Step.antt =====
-- One call of `advance` on a workflow that is open: the record that it leaves, and the frame.
use Prim.Native.String.{◌++◌}
use text.Mathlib.TextLemmas.{cons-append}
use nova_adapt.Base.{
  ℕ, ◌+◌, ◌<◌, String, string_eq, ◌≡◌, refl, sym, subst, false, Option, none, some, List, arith,
  beq_refl, length,
}
use nova_adapt.Base.Text.{strip, is_empty, is_empty-strip, is_space}
use nova_adapt.Base.Decimal.{show}
use nova_adapt.Base.Json.{Fields, num, put}
use nova_adapt.Base.Table
use nova_adapt.Base.Exec.{Result, ok}
use nova_adapt.Workflows.Store.{WorkflowRecord, key, select, changed}
use nova_adapt.Workflows.Store.Laws.{IsId, get_lem, update_lem}
use nova_adapt.Workflows.Checkpoints
use nova_adapt.Workflows.Engine.{
  next_status, step_payload, Engine, checkpoint, checkpoint_updated, write_back, advance,
  advance_to, current_step, finish_step, is_closed, next_status, step_payload,
}

-- A checkpoint is written for a stripped identifier and a name that is not blank; it does not raise.
pub checkpoint-ok :
    (now : ℕ) (wid name : String) (payload : Fields) (s : Engine)
    → IsId wid
    → is_empty (strip name) ≡ false
    → (checkpoint now wid name payload s).0 ≡ ok tt
unfolding checkpoint Checkpoints.save
checkpoint-ok now wid name payload s id h = ground (arith, id.stripped, id.present)

pub store-checkpoint :
    (now : ℕ) (wid name : String) (payload : Fields) (s : Engine)
    → (checkpoint now wid name payload s).1.store ≡ s.store
unfolding checkpoint
store-checkpoint now wid name payload s = refl

pub step_name-present : (name : String) → is_empty (strip ("step-" ++ name)) ≡ false
unfolding is_space
step_name-present name = rw (cons-append "s" "tep-" name) (is_empty-strip "s" ("tep-" ++ name) refl)

-- The record that an error-free advance from step `k` leaves.
abbrev pub advanced : ℕ → Option Fields → ℕ → WorkflowRecord → WorkflowRecord
advanced now result k r = record r {
  status = next_status (finish_step result k r.steps) (k + 1);
  steps = finish_step result k r.steps;
  context = put "current_step" (num (k + 1)) r.context;
  updated_at = now;
  last_error = "";
}

checkpoint_updated-ok :
    (now : ℕ) (name : String) (payload : Fields) (r : WorkflowRecord) (s : Engine)
    → IsId r.workflow_id
    → is_empty (strip name) ≡ false
    → (checkpoint_updated now name payload (some r) s).0 ≡ ok (some r)
unfolding checkpoint_updated
checkpoint_updated-ok now name payload r s id h =
    ground (arith, checkpoint-ok now r.workflow_id name payload s id h)

pub store-checkpoint_updated :
    (now : ℕ) (name : String) (payload : Fields) (u : Option WorkflowRecord) (s : Engine)
    → (checkpoint_updated now name payload u s).1.store ≡ s.store
unfolding checkpoint_updated
store-checkpoint_updated now name payload none s = refl
store-checkpoint_updated now name payload (some r) s = ground arith

module _ (now : ℕ) (r : WorkflowRecord) (status : Option String) (steps : Option (List Fields))
    (context : Option Fields) (last_error : Option String) (name : String) (payload : Fields)
    (s : Engine) (id : IsId r.workflow_id) (named : is_empty (strip name) ≡ false)
    (stored : select r.workflow_id s.store ≡ some r) where
  abbrev write : WorkflowRecord → WorkflowRecord
  write = changed now status steps context last_error r

  abbrev outcome : Result (Option WorkflowRecord) × Engine
  outcome = write_back now r status steps context last_error name payload s

  abbrev after_write : Engine
  after_write = record s { store = Table.update key r.workflow_id write s.store }

  -- The branches that write return the record that they store.
  pub write_back_lem :
      (outcome.0 ≡ ok (some (write r))) × (select r.workflow_id outcome.1.store ≡ some (write r))
  unfolding write_back
  write_back_lem =
      let updates =
        update_lem now r.workflow_id status steps context last_error s.store id r stored in
      let safe = checkpoint_updated-ok now name payload (write r) after_write id named in
      let kept = store-checkpoint_updated now name payload (some (write r)) after_write in
      (
        ground (arith, updates, safe),
        ground (
          arith,
          updates,
          kept,
          Table.select-update key r.workflow_id r.workflow_id write s.store (λ x. refl),
          beq_refl r.workflow_id,
        ),
      )

module _ (now : ℕ) (result : Option Fields) (k : ℕ) (s : Engine) (r : WorkflowRecord)
    (open_status : is_closed r.status ≡ false) (at : current_step r.context ≡ ok k)
    (more : k < length r.steps) where
  advance_is :
      IsId r.workflow_id
      → select r.workflow_id s.store ≡ some r
      → advance now r.workflow_id result "" s
        ≡ advance_to now result
            (k + 1)
            (finish_step result k r.steps)
            (put "current_step" (num (k + 1)) r.context)
            r
            s
  unfolding advance
  advance_is id stored = ground (arith, get_lem r.workflow_id s.store id)

  abbrev Steps : String → Type 0
  Steps wid =
      ((advance now wid result "" s).0 ≡ ok (some (advanced now result k r)))
      × (select wid (advance now wid result "" s).1.store ≡ some (advanced now result k r))

  advance_step_named :
      IsId r.workflow_id → select r.workflow_id s.store ≡ some r → Steps r.workflow_id
  unfolding advance_to
  advance_step_named id stored =
      let steps = finish_step result k r.steps in
      let status = next_status steps (k + 1) in
      rw (advance_is id stored) (
        write_back_lem now r (some status) (some steps)
          (some (put "current_step" (num (k + 1)) r.context)) (some "") ("step-" ++ show (k + 1))
          (step_payload status (k + 1) result) s id (step_name-present (show (k + 1))) stored)

  -- One error-free call finishes step `k`: what it returns is what it stores.
  pub advance_step : (wid : String) → IsId wid → select wid s.store ≡ some r → Steps wid
  advance_step wid id stored =
      let named : r.workflow_id ≡ wid = Table.key-select key wid s.store r stored in
      subst Steps named (
        advance_step_named (subst IsId (sym named) id)
          (subst (λ w. select w s.store ≡ some r) (sym named) stored))
