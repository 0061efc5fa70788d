-- ===== src/Models/Router/Decompose/Dependencies.antt =====
-- The outputs that a subtask's output rests on.
use nova_adapt.Base.{
  ℕ, zero, suc, String, Bool, true, false, not, ◌≡◌, refl, sym, ap, subst, ◌∙◌, some, List, [], ◌∷◌,
  ◌++◌, map, arith, any, all, filter, take, is_some, Bool-cases, Option-cases, inl, inr,
  append_assoc, append-nil,
}
use nova_adapt.Base.Text.{strip, is_empty, or_else}
use nova_adapt.Base.Exec.{Result, ok, raised, Result-cases}
use nova_adapt.Models.Router.Decompose.Ends.{List-cases}
use nova_adapt.Models.Router.Decompose.{
  Subtask, Output, Dependency, Crew, Progress, Ended, finished, unresolved, clean, completed,
  is_ready, attempts, execute_subtask, ask_solver, ask_reviewer, reviewer, outcome, done_id,
  complete_one, complete_all, left_of, run_batch, run_batches, task_id, ask_again,
  dependency_payload,
}

-- Each dependency of the output is completed by one of the outputs before it.
abbrev pub Supported : List Output → Output → Type 0
Supported before o = all (λ dep. is_some (completed dep before)) o.depends_on ≡ true

-- So it is for each output of a list, after those that came before the list.
abbrev pub InOrder : List Output → List Output → Type 0
InOrder before [] = Unit
InOrder before (o ∷ outputs) = Supported before o × InOrder (before ++ o ∷ []) outputs

InOrder-append :
    (before xs : List Output) (o : Output)
    → InOrder before xs
    → Supported (before ++ xs) o
    → InOrder before (xs ++ o ∷ [])
InOrder-append before [] o h s = (rw append-nil at s, tt)
InOrder-append before (x ∷ xs) o h s =
    (h.0, InOrder-append (before ++ x ∷ []) xs o h.1 (rw (append_assoc before (x ∷ []) xs) s))

completed-append :
    (dep : String) (xs ys : List Output)
    → is_some (completed dep xs) ≡ true
    → is_some (completed dep (xs ++ ys)) ≡ true
unfolding completed
completed-append dep [] ys h = absurd (ground arith)
completed-append dep (x ∷ xs) ys h = ground (arith, completed-append dep xs ys)

Supported-append :
    (deps : List String) (xs ys : List Output)
    → all (λ dep. is_some (completed dep xs)) deps ≡ true
    → all (λ dep. is_some (completed dep (xs ++ ys))) deps ≡ true
Supported-append [] xs ys h = refl
Supported-append (dep ∷ deps) xs ys h =
    ground (arith, completed-append dep xs ys, Supported-append deps xs ys)

-- An output names the dependencies of its subtask.
abbrev Names : List String → Result Output → Type 0
Names deps (ok o) = o.depends_on ≡ deps
Names deps (raised e) = Unit

module _ (crew : Crew) (execution_pool : List String) where
  Names-attempts :
      (left : ℕ) (t : Subtask) (subtask_id : String) (dependencies : List Dependency)
      (feedback : String)
      → Names
          (clean t.depends_on)
          (attempts crew execution_pool left t subtask_id dependencies feedback)
  unfolding attempts
  Names-attempts zero t subtask_id dependencies feedback =
      elim (Result-cases (ask_solver crew execution_pool t subtask_id dependencies feedback)) [
        | inr (e, fails) ↦ rw (fails, attempts) tt
        | inl (answer, solved) ↦
            rw (solved, attempts)
              (elim (Option-cases (reviewer crew execution_pool t)) [
                | inl alone ↦ rw alone refl
                | inr (model, asked) ↦
                    rw asked
                      (elim (Result-cases
                        (ask_reviewer crew execution_pool t subtask_id answer model)) [
                          | inr (e, fails) ↦ rw fails tt
                          | inl (verdict, told) ↦ rw told refl
                        ])
              ])
      ]
  Names-attempts (suc left) t subtask_id dependencies feedback =
      elim (Result-cases (ask_solver crew execution_pool t subtask_id dependencies feedback)) [
        | inr (e, fails) ↦ rw (fails, attempts) tt
        | inl (answer, solved) ↦
            rw (solved, attempts)
              (elim (Option-cases (reviewer crew execution_pool t)) [
                | inl alone ↦ rw alone refl
                | inr (model, asked) ↦
                    rw asked
                      (elim (Result-cases
                        (ask_reviewer crew execution_pool t subtask_id answer model)) [
                          | inr (e, fails) ↦ rw fails tt
                          | inl (verdict, told) ↦
                              rw told
                                (elim (Bool-cases (crew.parse_review verdict.content).approved) [
                                  | inl approved ↦ rw approved refl
                                  | inr again ↦ rw again (
                                      Names-attempts left t subtask_id dependencies (
                                        ask_again crew execution_pool
                                          (crew.parse_review verdict.content)))
                                ])
                        ])
              ])
      ]

  Names-execute :
      (review_retries : ℕ) (t : Subtask) (outputs : List Output)
      → Names (clean t.depends_on) (execute_subtask crew execution_pool review_retries t outputs)
  unfolding execute_subtask
  Names-execute review_retries t outputs = elim (Bool-cases (is_empty (strip t.objective))) [
    | inl blank ↦ rw (blank, execute_subtask) tt
    | inr other ↦
        rw (other, execute_subtask)
          (Names-attempts review_retries t (or_else (strip t.id) "subtask")
            (dependency_payload (clean t.depends_on) outputs) "")
  ]

-- The outputs in their order, the first ones being those that were there when the batch began.
pub record Grown (before : List Output) (g : Progress) : Type 0 where
  pub in_order : InOrder [] g.outputs
  pub since : (more : List Output) × (g.outputs ≡ before ++ more)

module _ (crew : Crew) (execution_pool : List String) (parallel_workers review_retries : ℕ) where
  Grown-outcome :
      (before : List Output) (t : Subtask) (id : String) (r : Result Output) (g : Progress)
      → is_ready before t ≡ true
      → Names (clean t.depends_on) r
      → Grown before g
      → Grown before (outcome crew execution_pool parallel_workers review_retries id r g)
  unfolding outcome
  Grown-outcome before t id (raised e) g ready names w = record {
    in_order = w.in_order;
    since = w.since;
  }
  Grown-outcome before t id (ok o) g ready names w =
      let (more, e) = w.since in
      let support : all (λ dep. is_some (completed dep g.outputs)) o.depends_on ≡ true =
        rw (names, e) (Supported-append (clean t.depends_on) before more ready) in
      record {
        in_order = InOrder-append [] g.outputs (record o { id = id }) w.in_order support;
        since = (
          more ++ record o { id = id } ∷ [],
          ap (λ l. l ++ record o { id = id } ∷ []) e
              ∙ append_assoc before more (record o { id = id } ∷ []),
        );
      }

  Grown-complete_all :
      (before : List Output) (ts : List Subtask) (g : Progress)
      → any (λ t. not (is_ready before t)) ts ≡ false
      → Grown before g
      → Grown before (complete_all crew execution_pool parallel_workers review_retries before ts g)
  unfolding complete_all complete_one
  Grown-complete_all before [] g ready w = w
  Grown-complete_all before (t ∷ ts) g ready w =
      let id = done_id crew execution_pool parallel_workers review_retries t g in
      let r = execute_subtask crew execution_pool review_retries t before in
      let first =
        Grown-outcome before t id r g (ground arith)
          (Names-execute crew execution_pool review_retries t before) w in
      Grown-complete_all before ts
        (complete_one crew execution_pool parallel_workers review_retries before t g) (ground arith)
        (record { in_order = first.in_order; since = first.since })

  none-unready :
      (outputs : List Output) (n : ℕ) (ts : List Subtask)
      → any (λ t. not (is_ready outputs t)) (take n (filter (is_ready outputs) ts)) ≡ false
  none-unready outputs n ts = taken n (filter (is_ready outputs) ts) (kept ts)
    where
      kept :
          (ts : List Subtask)
          → any (λ t. not (is_ready outputs t)) (filter (is_ready outputs) ts) ≡ false
      kept [] = refl
      kept (t ∷ ts) = elim (Bool-cases (is_ready outputs t)) [
        | inl good ↦ rw good (rw good (kept ts))
        | inr other ↦ rw other (kept ts)
      ]

      taken :
          (n : ℕ) (us : List Subtask)
          → any (λ t. not (is_ready outputs t)) us ≡ false
          → any (λ t. not (is_ready outputs t)) (take n us) ≡ false
      taken zero us h = refl
      taken (suc n) [] h = refl
      taken (suc n) (u ∷ us) h = ground (arith, taken n us)

  -- What the loop has come to, however it ends.
  abbrev pub progress_of : Ended → Progress
  progress_of (finished g) = g
  progress_of (unresolved ids g) = g

  module _
      (completes : (p : Subtask → Bool) (ts : List Subtask)
        → any p (crew.completion ts) ≡ any p ts) where
    -- However the loop of `_chat_decompose` ends, and in whatever order the futures of a batch complete:
    -- each subtask was executed when all the dependencies that it names had been completed, so that each
    -- output rests on outputs that stand before it.
    pub outputs_in_order :
        (fuel : ℕ) (pending : List Subtask) (g : Progress) (e : Ended)
        → InOrder [] g.outputs
        → run_batches crew execution_pool parallel_workers review_retries fuel pending g ≡ some e
        → InOrder [] (progress_of e).outputs
    unfolding run_batches
    outputs_in_order zero pending g e h ends = absurd (cc)
    outputs_in_order (suc fuel) [] g e h ends =
        let same : finished g ≡ e = cc in subst (λ x. InOrder [] (progress_of x).outputs) same h
    outputs_in_order (suc fuel) (t ∷ ts) g e h ends =
        elim (List-cases (filter (is_ready g.outputs) (t ∷ ts))) [
          | inl stuck ↦
              let ends' : some (unresolved (map task_id (t ∷ ts)) g) ≡ some e =
                rw (stuck, run_batches) at ends in
              let same : unresolved (map task_id (t ∷ ts)) g ≡ e = cc in
              subst (λ x. InOrder [] (progress_of x).outputs) same h
          | inr (r, rs, ready) ↦
              let batch = take parallel_workers (r ∷ rs) in
              let g' = run_batch crew execution_pool parallel_workers review_retries batch g in
              let unready : Subtask → Bool = λ u. not (is_ready g.outputs u) in
              let all_ready : any unready batch ≡ false =
                subst (λ us. any unready (take parallel_workers us) ≡ false) ready
                  (none-unready g.outputs parallel_workers (t ∷ ts)) in
              let grown =
                Grown-complete_all g.outputs (crew.completion batch)
                  (record g { batches = g.batches ++ map (λ u. u.id) batch ∷ [] })
                  (completes unready batch ∙ all_ready)
                  (record { in_order = h; since = ([], sym (append-nil g.outputs)) }) in
              let rest = left_of crew execution_pool parallel_workers review_retries (t ∷ ts) g' in
              outputs_in_order fuel rest g' e grown.in_order (rw (ready, run_batches) at ends)
        ]
