-- ===== src/Models/Router/Decompose/Ends.antt =====
-- The loop over the batches comes to an end.
use nova_adapt.Base.{
  ℕ, zero, suc, ◌<◌, String, Bool, true, false, not, ◌||◌, ◌≡◌, refl, ap, subst, ◌∙◌, ◌⊎◌, some,
  List, [], ◌∷◌, map, arith, str_eq, eq_iff, any, filter, take, length, All, length-filter,
  All-filter_self, Bool-cases, inl, inr,
}
use nova_adapt.Base.Text.{is_empty}
use nova_adapt.Models.Router.Decompose.{
  Subtask, Output, Crew, Progress, Ended, finished, unresolved, is_in, add_to, is_ready, task_id,
  done_id, complete_one, complete_all, left_of, run_batch, run_batches,
}

is_in-add_to :
    (x id : String) (names : List String)
    → is_in x (add_to id names) ≡ (str_eq id x || is_in x names)
is_in-add_to x id names = elim (Bool-cases (is_in id names)) [
  | inl there ↦ rw there (elim (Bool-cases (str_eq id x)) [
    | inl same ↦
        let e : id ≡ x = (eq_iff id x).0 same in rw same (ground (arith, ap (λ y. is_in y names) e))
    | inr other ↦ rw other refl
  ])
  | inr new ↦ rw new refl
]

any-of-filter :
    {A : Type 0} (p q : A → Bool) (xs : List A) → any q (filter p xs) ≡ true → any q xs ≡ true
any-of-filter p q [] h = h
any-of-filter p q (x ∷ xs) h = ground (arith, any-of-filter p q xs)

length-filter-less :
    {A : Type 0} (p : A → Bool) (xs : List A)
    → any p xs ≡ true
    → length (filter (λ x. not (p x)) xs) < length xs
length-filter-less p [] h = absurd (ground arith)
length-filter-less p (x ∷ xs) h =
    ground (arith, length-filter-less p xs, length-filter (λ y. not (p y)) xs)

pub List-cases : {A : Type 0} (xs : List A) → (xs ≡ []) ⊎ ((y : A) × (ys : List A) × (xs ≡ y ∷ ys))
List-cases [] = inl refl
List-cases (x ∷ xs) = inr (x, xs, refl)

module _ (crew : Crew) (execution_pool : List String) (parallel_workers review_retries : ℕ) where
  processed-complete_one :
      (before : List Output) (t : Subtask) (g : Progress)
      → (complete_one crew execution_pool parallel_workers review_retries before t g).processed
        ≡ add_to (done_id crew execution_pool parallel_workers review_retries t g) g.processed
  unfolding complete_one
  processed-complete_one before t g = refl

  -- What is processed stays so.
  still-processed :
      (x : String) (before : List Output) (ts : List Subtask) (g : Progress)
      → is_in x g.processed ≡ true
      → is_in x
          (complete_all crew execution_pool parallel_workers review_retries before ts g).processed
        ≡ true
  unfolding complete_all
  still-processed x before [] g h = h
  still-processed x before (t ∷ ts) g h =
      let g' = complete_one crew execution_pool parallel_workers review_retries before t g in
      let id = done_id crew execution_pool parallel_workers review_retries t g in
      still-processed x before ts g'
        (rw (processed-complete_one before t g) (ground (arith, is_in-add_to x id g.processed, h)))

  all-processed :
      (x : String) (before : List Output) (ts : List Subtask) (g : Progress)
      → is_empty x ≡ false
      → any (λ t. str_eq (task_id t) x) ts ≡ true
      → is_in x
          (complete_all crew execution_pool parallel_workers review_retries before ts g).processed
        ≡ true
  unfolding complete_all
  all-processed x before [] g named h = absurd (ground arith)
  all-processed x before (t ∷ ts) g named h = elim (Bool-cases (str_eq (task_id t) x)) [
    | inr other ↦ all-processed x before ts _ named (ground arith)
    | inl same ↦
        let e : task_id t ≡ x = (eq_iff (task_id t) x).0 same in
        let g' = complete_one crew execution_pool parallel_workers review_retries before t g in
        still-processed x before ts g' (
          rw (processed-complete_one before t g)
            (rw e (rw named (ground (arith, is_in-add_to x x g.processed, eq_iff x x)))))
  ]

  abbrev pub Named : Subtask → Type 0
  Named t = is_empty (task_id t) ≡ false

  module _ (positive : 0 < parallel_workers)
      (completes : (p : Subtask → Bool) (ts : List Subtask)
        → any p (crew.completion ts) ≡ any p ts) where
    first-taken :
        (n : ℕ) (r : Subtask) (rs : List Subtask)
        → 0 < n
        → any (λ t. str_eq (task_id t) (task_id r)) (take n (r ∷ rs)) ≡ true
    first-taken zero r rs h = absurd (omega arith)
    first-taken (suc n) r rs h = ground (arith, eq_iff (task_id r) (task_id r))

    fewer :
        (pending : List Subtask) (r : Subtask) (rs : List Subtask) (g : Progress)
        → filter (is_ready g.outputs) pending ≡ r ∷ rs
        → All Named pending
        → let g' =
            run_batch crew execution_pool parallel_workers review_retries
              (take parallel_workers (r ∷ rs))
              g in
          length (left_of crew execution_pool parallel_workers review_retries pending g')
          < length pending
    fewer pending r rs g ready named =
        let x = task_id r in
        let batch = take parallel_workers (r ∷ rs) in
        let named_r : Named r × All Named rs =
          subst (All Named) ready (All-filter_self Named (is_ready g.outputs) pending named) in
        let g' = run_batch crew execution_pool parallel_workers review_retries batch g in
        let same : Subtask → Bool = λ t. str_eq (task_id t) x in
        let hit : is_in x g'.processed ≡ true =
          all-processed x g.outputs (crew.completion batch) _ named_r.0
            (completes same batch ∙ first-taken parallel_workers r rs positive) in
        let in_ready : any (λ t. is_in (task_id t) g'.processed)
              (filter (is_ready g.outputs) pending)
            ≡ true =
          rw ready (rw hit refl) in
        length-filter-less (λ t. is_in (task_id t) g'.processed) pending
          (any-of-filter (is_ready g.outputs) (λ t. is_in (task_id t) g'.processed) pending
            in_ready)

    -- If some worker is allowed and no subtask's identifier is blank, the loop of `_chat_decompose` ends
    -- within one round more than there are pending subtasks, in whatever order the futures of a batch
    -- complete, whatever the models answer, and whether or not the dependencies can be met.
    pub decompose_ends :
        (fuel : ℕ) (pending : List Subtask) (g : Progress)
        → length pending < fuel
        → All Named pending
        → (e : Ended) × (run_batches crew execution_pool parallel_workers review_retries fuel
              pending g
            ≡ some e)
    unfolding run_batches
    decompose_ends zero pending g enough named = absurd (omega arith)
    decompose_ends (suc fuel) [] g enough named = (finished g, refl)
    decompose_ends (suc fuel) (t ∷ ts) g enough named =
        elim (List-cases (filter (is_ready g.outputs) (t ∷ ts))) [
          | inl stuck ↦ (unresolved (map task_id (t ∷ ts)) g, rw (stuck, run_batches) refl)
          | inr (r, rs, ready) ↦
              let g' =
                run_batch crew execution_pool parallel_workers review_retries
                  (take parallel_workers (r ∷ rs)) g in
              let rest = left_of crew execution_pool parallel_workers review_retries (t ∷ ts) g' in
              let shorter = fewer (t ∷ ts) r rs g ready named in
              let (e, ends) = decompose_ends fuel rest g' (omega (arith, shorter, enough)) (
                All-filter_self Named (λ u. not (is_in (task_id u) g'.processed)) (t ∷ ts) named) in
              (e, rw (ready, run_batches) ends)
        ]
