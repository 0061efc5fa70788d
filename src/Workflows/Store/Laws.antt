-- ===== src/Workflows/Store/Laws.antt =====
-- What `get` and `update` of the workflow store do on a stored record.
use Prim.Native.String
use nova_adapt.Base.{
  ℕ, String, string_eq, ◌≡◌, refl, true, false, Option, ◌≢◌, none, some, List, [], ◌∷◌, ◌++◌, arith,
  beq_refl, eq_iff, Option-cases, inl, inr,
}
use nova_adapt.Base.Text.{strip, is_empty, or_else}
use nova_adapt.Base.Json.{Fields}
use nova_adapt.Base.Table
use nova_adapt.Base.Exec.{ok, raised, value_error, runtime_error}
use nova_adapt.Workflows.Store.{WorkflowRecord, Rows, key, select, get, create, update, changed}

-- An identifier that `strip` leaves alone and that is not empty.
pub record IsId (wid : String) : Type 0 where
  pub stripped : strip wid ≡ wid
  pub present : is_empty wid ≡ false

pub get_lem : (wid : String) (rows : Rows) → IsId wid → get wid rows ≡ (ok (select wid rows), rows)
unfolding get
get_lem wid rows h = rw h.stripped (rw h.present)

pub get_blank :
    (wid : String) (rows : Rows)
    → is_empty (strip wid) ≡ true
    → get wid rows ≡ (raised (value_error "'workflow_id' is required"), rows)
unfolding get
get_blank wid rows h = rw h

module _ (now : ℕ) (wid : String) (status : Option String) (steps : Option (List Fields))
    (context : Option Fields) (last_error : Option String) (rows : Rows) (id : IsId wid) where
  abbrev write : WorkflowRecord → WorkflowRecord → WorkflowRecord
  write = changed now status steps context last_error

  pub update_lem :
      (r : WorkflowRecord)
      → select wid rows ≡ some r
      → update now wid status steps context last_error rows
        ≡ (ok (some (write r r)), Table.update key wid (write r) rows)
  unfolding update
  update_lem r h = ground (
    arith,
    get_lem wid rows id,
    get_lem wid (Table.update key wid (write r) rows) id,
    Table.select-update key wid wid (write r) rows (λ x. refl),
    beq_refl wid,
  )

module _ (now : ℕ) (fresh objective : String) (steps : List Fields) (context : Fields)
    (wid status : String) (rows : Rows) (named : is_empty (strip objective) ≡ false) where
  abbrev made : WorkflowRecord
  made = record {
    workflow_id = or_else wid fresh;
    status = or_else status "queued";
    objective = strip objective;
    steps = steps;
    context = context;
    created_at = now;
    updated_at = now;
    last_error = "";
  }

  pub create_lem :
      IsId (or_else wid fresh)
      → select (or_else wid fresh) rows ≡ none
      → create now fresh objective steps context wid status rows ≡ (ok made, rows ++ made ∷ [])
  unfolding create
  create_lem id unused = ground (
    arith,
    get_lem (or_else wid fresh) (rows ++ made ∷ []) id,
    Table.insert-fresh key made rows unused,
    Table.select-append key (or_else wid fresh) rows made,
    beq_refl (or_else wid fresh),
  )

  -- `create` with an objective that is not blank, and with an identifier that has blanks at an end, is not
  -- blank, and is free both as it is and stripped, raises the RuntimeError "workflow create failed: …" with
  -- this identifier; the row stays in the table, under the identifier with its blanks.
  pub create_padded :
      is_empty (strip (or_else wid fresh)) ≡ false
      → select (or_else wid fresh) rows ≡ none
      → select (strip (or_else wid fresh)) rows ≡ none
      → strip (or_else wid fresh) ≢ or_else wid fresh
      → create now fresh objective steps context wid status rows ≡ (
        raised (runtime_error (String.◌++◌ "workflow create failed: " (or_else wid fresh))),
        rows ++ made ∷ [],
      )
  unfolding create get
  create_padded present unused unseen padded = ground (
    arith,
    Table.insert-fresh key made rows unused,
    Table.select-append key (strip (or_else wid fresh)) rows made,
    eq_iff (or_else wid fresh) (strip (or_else wid fresh)),
  )

pub get_keeps : (wid : String) (rows : Rows) → (get wid rows).1 ≡ rows
unfolding get
get_keeps wid rows = ground arith

-- `update` writes to no other record, whatever it returns.
pub select-update_ne :
    (now : ℕ) (wid j : String) (status : Option String) (steps : Option (List Fields))
    (context : Option Fields) (last_error : Option String) (rows : Rows)
    → wid ≢ j
    → select j (update now wid status steps context last_error rows).1 ≡ select j rows
unfolding update
select-update_ne now wid j status steps context last_error rows ne =
    elim (Option-cases (select (strip wid) rows)) [
      | inl absent ↦ ground arith
      | inr (r, found) ↦
          let f = changed now status steps context last_error r in
          ground (
            arith,
            get_keeps wid (Table.update key wid f rows),
            Table.select-update key wid j f rows (λ x. refl),
            eq_iff wid j,
          )
    ]
