-- ===== src/Gateway/Queue/Claim.antt =====
-- Which job `claim_next` takes, and what it leaves of the others.
use nova_adapt.Base.{
  ℕ, ◌≤◌, String, beq_refl, ◌≡◌, refl, subst, true, false, none, some, List, [], ◌∷◌, arith,
  string_eq, str_eq, eq_iff, if◌then◌else◌, filter, All, All-imp, All-filter, All-filter_self,
  filter-nil, leb→le, Option-cases, Bool-cases, inl, inr, ◌⊎◌,
}
use nova_adapt.Base.Table
use nova_adapt.Base.Table.Keys.{Keyed, select_self}
use nova_adapt.Base.Order.{
  first, order_by, All-order_by, All-of_order_by, first-none, order_by-IsSorted, IsSorted,
}
use nova_adapt.Gateway.Queue.{
  JobRecord, Queue, job_key, select_job, write_job, claimable, oldest_first, next_job, running,
  row_to_job, claim_next, claim,
}

abbrev pub IsKeyed : Queue → Type 0
IsKeyed q = Keyed job_key q.jobs

first-All :
    (P : JobRecord → Type 0) (xs : List JobRecord) (r : JobRecord)
    → All P xs
    → first xs ≡ some r
    → P r
first-All P [] r h e = cc
first-All P (x ∷ xs) r h e = let p : x ≡ r = ground arith in subst P p h.0

oldest_total : (x y : JobRecord) → (oldest_first x y ≡ true) ⊎ (oldest_first y x ≡ true)
oldest_total x y = ground arith

oldest_trans :
    (x y z : JobRecord)
    → oldest_first x y ≡ true
    → oldest_first y z ≡ true
    → oldest_first x z ≡ true
oldest_trans x y z h k = ground arith

-- The first of a sorted list is before each of its elements.
first-oldest :
    (xs : List JobRecord) (r : JobRecord)
    → IsSorted oldest_first xs
    → first xs ≡ some r
    → All (λ x. r.created_at ≤ x.created_at) xs
first-oldest [] r h e = tt
first-oldest (x ∷ xs) r h e =
    let p : x ≡ r = ground arith in
    subst (λ y. All (λ z. y.created_at ≤ z.created_at) (x ∷ xs)) p
      (omega arith, All-imp xs (λ z b. leb→le x.created_at z.created_at b) h.0)

module _ (now : ℕ) (q : Queue) (r : JobRecord) (next : next_job now q ≡ some r) where
  pub next_job-claimable : claimable now r ≡ true
  next_job-claimable =
      first-All (λ x. claimable now x ≡ true)
        (order_by oldest_first (filter (claimable now) q.jobs)) r
        (All-order_by oldest_first (λ x. claimable now x ≡ true) (filter (claimable now) q.jobs)
          (All-filter (λ x. claimable now x ≡ true) (claimable now) q.jobs (λ x h. h)))
        next

  pub next_job-stored : IsKeyed q → select_job r.job_id q ≡ some r
  next_job-stored keyed =
      let Found : JobRecord → Type 0 = λ x. select_job x.job_id q ≡ some x in
      first-All Found (order_by oldest_first (filter (claimable now) q.jobs)) r
        (All-order_by oldest_first Found (filter (claimable now) q.jobs)
          (All-filter_self Found (claimable now) q.jobs (select_self job_key q.jobs keyed)))
        next

  pub next_job-oldest : All (λ x. r.created_at ≤ x.created_at) (filter (claimable now) q.jobs)
  next_job-oldest =
      let P : JobRecord → Type 0 = λ x. r.created_at ≤ x.created_at in
      let due = filter (claimable now) q.jobs in
      All-of_order_by oldest_first P due (
        first-oldest (order_by oldest_first due) r
          (order_by-IsSorted oldest_first oldest_total oldest_trans due) next)

  pub claim_next-some :
      claim_next now q ≡ (some (row_to_job (running now r)), write_job r.job_id (running now) q)
  unfolding claim_next
  claim_next-some = rw (next, claim)

claim_next-none : (now : ℕ) (q : Queue) → next_job now q ≡ none → claim_next now q ≡ (none, q)
unfolding claim_next
claim_next-none now q next = rw (next, claim)

-- The row that `claim_next` chose to hand out as `job`, and what it wrote.
pub record Claims (now : ℕ) (q : Queue) (job : JobRecord) (q' : Queue) : Type 0 where
  pub row : JobRecord
  pub stored : select_job job.job_id q ≡ some row
  pub due : claimable now row ≡ true
  pub oldest : All (λ x. row.created_at ≤ x.created_at) (filter (claimable now) q.jobs)
  pub taken : select_job job.job_id q' ≡ some (running now row)
  pub rows :
      (j : String)
      → select_job j q' ≡ (if str_eq job.job_id j then some (running now row) else select_job j q)
  pub written : q' ≡ write_job job.job_id (running now) q

Claims-row :
    (now : ℕ) (q : Queue) (r : JobRecord)
    → IsKeyed q
    → next_job now q ≡ some r
    → Claims now q (row_to_job (running now r)) (write_job r.job_id (running now) q)
Claims-row now q r keyed next =
    let written =
      λ (j : String). Table.select-update job_key r.job_id j (running now) q.jobs (λ x. refl) in
    let held = next_job-stored now q r next keyed in
    record {
      row = r;
      stored = held;
      due = next_job-claimable now q r next;
      oldest = next_job-oldest now q r next;
      taken = ground (arith, written r.job_id, held, beq_refl r.job_id);
      rows = λ j. elim (Bool-cases (str_eq r.job_id j)) [
        | inl same ↦
            let here = subst (λ k. select_job k q ≡ some r) ((eq_iff r.job_id j).0 same) held in
            ground (arith, written j, here)
        | inr other ↦ ground (arith, written j)
      ];
      written = refl;
    }

-- In a queue with its primary key intact, a job that `claim_next` hands out stood in the queue, was
-- due (queued, or waiting for a retry whose time has come) and was created no later than any job that
-- was due; afterwards its row is running and no other row has changed.
pub claim_next-Claims :
    (now : ℕ) (q : Queue) (job : JobRecord)
    → IsKeyed q
    → (claim_next now q).0 ≡ some job
    → Claims now q job (claim_next now q).1
claim_next-Claims now q job keyed h = elim (Option-cases (next_job now q)) [
  | inl idle ↦ absurd (cc (claim_next-none now q idle))
  | inr (r, next) ↦
      let given = claim_next-some now q r next in
      let same : row_to_job (running now r) ≡ job = ground arith in
      rw given (
        subst (λ x. Claims now q x (write_job r.job_id (running now) q)) same
          (Claims-row now q r keyed next))
]

-- `claim_next` hands out nothing only if no job is due, and then it changes nothing.
pub claim_next-idle :
    (now : ℕ) (q : Queue)
    → (claim_next now q).0 ≡ none
    → All (λ x. claimable now x ≡ false) q.jobs × ((claim_next now q).1 ≡ q)
claim_next-idle now q h = elim (Option-cases (next_job now q)) [
  | inl idle ↦ (
    filter-nil (claimable now) q.jobs
        (first-none oldest_first (filter (claimable now) q.jobs) idle),
    rw (claim_next-none now q idle),
  )
  | inr (r, next) ↦ absurd (cc (claim_next-some now q r next))
]
