-- ===== src/Requests/Jobs/Memory.antt =====
-- What each write of the job manager changes in memory, in the store and among the futures.
use nova_adapt.Base.{
  String, false, ◌≡◌, refl, ◌∙◌, none, some, if◌then◌else◌, arith, str_eq, string_eq, Option-cases,
  inl, inr,
}
use nova_adapt.Base.Table
use nova_adapt.Requests.JobStore
use nova_adapt.Requests.JobStore.{JobRecord, Rows, key}
use nova_adapt.Requests.Jobs.{
  JobManager, FutureState, job, future, future_key, save, set_future, recall,
}

pub job-save :
    (id : String) (r : JobRecord) (m : JobManager)
    → job id (save r m) ≡ (if str_eq r.id id then some r else job id m)
job-save id r m =
    let found = Table.select-upsert key id r (λ x. record r { id = x.id }) m.jobs (λ x. refl) in
    elim (Option-cases (Table.select key r.id m.jobs)) [
      | inl free ↦ ground (arith, found, free)
      | inr (old, there) ↦
          let same : old.id ≡ r.id = Table.key-select key r.id m.jobs old there in
          let whole : record r { id = old.id } ≡ r = rw same refl in
          ground (arith, found, there, whole)
    ]

pub future-set_future :
    (id j : String) (state : FutureState) (m : JobManager)
    → future id (set_future j state m) ≡ (
        if str_eq j id
        then elim (future id m) [ none ↦ none | some f ↦ some (record f { state = state }) ]
        else future id m)
future-set_future id j state m =
    Table.select-update future_key j id (λ f. record f { state = state }) m.futures (λ x. refl)
    ∙ elim (Option-cases (future id m)) [ inl free ↦ rw free refl | inr (f, there) ↦ rw there refl ]

-- A record that is found stands under its own identifier.
pub id-job : (id : String) (r : JobRecord) (m : JobManager) → job id m ≡ some r → r.id ≡ id
id-job id r m h = Table.key-select key id m.jobs r h

pub recall-there :
    (id : String) (r : JobRecord) (m : JobManager) → job id m ≡ some r → recall id m ≡ m
recall-there id r m h = rw h refl

pub job-recall_other :
    (id j : String) (m : JobManager) → str_eq j id ≡ false → job id (recall j m) ≡ job id m
unfolding JobStore.get_row
job-recall_other id j m other = elim (Option-cases (job j m)) [
  | inr (r, there) ↦ rw there refl
  | inl gone ↦ rw gone (elim (Option-cases m.store) [
    | inl bare ↦ rw bare refl
    | inr (rows, has) ↦ rw has (elim (Option-cases (Table.select key j rows)) [
      | inl missing ↦ rw missing refl
      | inr (r, stored) ↦ rw stored (
          let is_id : r.id ≡ j = Table.key-select key j rows r stored in
          ground (arith, job-save id r m, is_id, other))
    ])
  ])
]

pub future-recall : (id j : String) (m : JobManager) → future id (recall j m) ≡ future id m
unfolding JobStore.get_row
future-recall id j m = elim (Option-cases (job j m)) [
  | inr (r, there) ↦ rw there refl
  | inl gone ↦ rw gone (elim (Option-cases m.store) [
    | inl bare ↦ rw bare refl
    | inr (rows, has) ↦ rw has (elim (Option-cases (Table.select key j rows)) [
      | inl missing ↦ rw missing refl
      | inr (r, stored) ↦ rw stored refl
    ])
  ])
]
