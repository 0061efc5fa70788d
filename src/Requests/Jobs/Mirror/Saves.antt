-- ===== src/Requests/Jobs/Mirror/Saves.antt =====
-- Saving a record keeps the store equal to memory.
use nova_adapt.Base.{
  String, ◌≡◌, sym, ap, subst, ◌∙◌, some, arith, str_eq, eq_iff, string_eq, Option-cases, inl, inr,
  Bool-cases,
}
use nova_adapt.Base.Table
use nova_adapt.Requests.JobStore
use nova_adapt.Requests.JobStore.{
  JobRecord, Rows, key, newest_first, get_row-upsert, get_row-upsert_other, is_terminal,
}
use nova_adapt.Requests.Jobs.{JobManager, FutureState, job, save, set_future, recall}
use nova_adapt.Requests.Jobs.Memory.{job-save, id-job}

-- Each record in memory is the row of its identifier.
pub record Mirrored (m : JobManager) : Type 0 where
  pub same :
      (id : String) (r : JobRecord) (rows : Rows)
      → m.store ≡ some rows
      → job id m ≡ some r
      → JobStore.get_row id rows ≡ some r

-- What `save` needs of the record: the row under its identifier, if any, was made at the same time.
abbrev pub CanSave : JobRecord → JobManager → Type 0
CanSave r m =
    (rows : Rows) (old : JobRecord)
    → m.store ≡ some rows
    → JobStore.get_row r.id rows ≡ some old
    → old.created_at ≡ r.created_at

pub save-Mirrored :
    (r : JobRecord) (m : JobManager) → CanSave r m → Mirrored m → Mirrored (save r m)
save-Mirrored r m can h = record {
  same = λ id x rows has there. elim (Option-cases m.store) [
    | inl bare ↦ absurd (ground arith)
    | inr (before, had) ↦
        let now_has : some (JobStore.upsert r before) ≡ some rows = rw had at has in
        let is_rows : JobStore.upsert r before ≡ rows = ground arith in
        let found = job-save id r m in
        elim (Bool-cases (str_eq r.id id)) [
          | inl mine ↦
              let is_id : r.id ≡ id = (eq_iff r.id id).0 mine in
              let is_r : r ≡ x = ground arith in
              let stored = get_row-upsert r before (λ old. can before old had) in
              subst (λ k. JobStore.get_row k rows ≡ some x) is_id
                (subst (λ rs. JobStore.get_row r.id rs ≡ some x) is_rows (stored ∙ ap some is_r))
          | inr other ↦
              let was : job id m ≡ some x = ground arith in
              subst (λ rs. JobStore.get_row id rs ≡ some x) is_rows
                (get_row-upsert_other r before id other ∙ h.same id x before had was)
        ]
  ];
}

-- A new version of a record in memory can be saved.
same-CanSave :
    (id : String) (r0 r : JobRecord) (m : JobManager)
    → Mirrored m
    → job id m ≡ some r0
    → r.id ≡ id
    → r.created_at ≡ r0.created_at
    → CanSave r m
same-CanSave id r0 r m h there is_id at rows old has stored =
    let mine : JobStore.get_row id rows ≡ some r0 = h.same id r0 rows has there in
    let yours : JobStore.get_row id rows ≡ some old =
      subst (λ k. JobStore.get_row k rows ≡ some old) is_id stored in
    let is_old : r0 ≡ old = ground arith in ap (λ x. x.created_at) (sym is_old) ∙ sym at

pub saved-Mirrored :
    (id : String) (r0 r : JobRecord) (m : JobManager)
    → Mirrored m
    → job id m ≡ some r0
    → r.id ≡ r0.id
    → r.created_at ≡ r0.created_at
    → Mirrored (save r m)
saved-Mirrored id r0 r m h there is_id at =
    save-Mirrored r m (same-CanSave id r0 r m h there (is_id ∙ id-job id r0 m there) at) h

pub set_future-Mirrored :
    (id : String) (state : FutureState) (m : JobManager)
    → Mirrored m
    → Mirrored (set_future id state m)
set_future-Mirrored id state m h = record { same = h.same }

pub recall-Mirrored : (id : String) (m : JobManager) → Mirrored m → Mirrored (recall id m)
unfolding JobStore.get_row
recall-Mirrored id m h = elim (Option-cases (job id m)) [
  | inr (r, there) ↦ rw there h
  | inl gone ↦ rw gone (elim (Option-cases m.store) [
    | inl bare ↦ rw bare h
    | inr (rows, has) ↦ rw has (elim (Option-cases (Table.select key id rows)) [
      | inl missing ↦ rw missing h
      | inr (r, stored) ↦ rw stored record {
        same = λ j x rows' has' there.
            let is_rows : rows ≡ rows' = ground arith in
            let found = job-save j r m in
            elim (Bool-cases (str_eq r.id j)) [
              | inl mine ↦
                  let is_r : r ≡ x = ground arith in
                  let is_id : id ≡ j =
                    sym (Table.key-select key id rows r stored) ∙ (eq_iff r.id j).0 mine in
                  subst (λ rs. Table.select key j rs ≡ some x) is_rows
                    (subst (λ k. Table.select key k rows ≡ some x) is_id (stored ∙ ap some is_r))
              | inr other ↦ h.same j x rows' has' (ground arith)
            ];
      }
    ])
  ])
]
