-- ===== src/Runtime/AuditStore/Watch/Grows.antt =====
-- What calls add to an audit store whose rows do not expire.
use nova_adapt.Base.{
  ℕ, suc, ◌+◌, ◌≤◌, ◌<◌, Bool, true, false, ◌≡◌, refl, sym, ap, subst, ◌∙◌, List, [], ◌∷◌, ◌++◌,
  ltb, max, filter, length, length-append, filter-append, append_assoc, append-nil, All, All-append,
  All-imp, some, arith,
}
use nova_adapt.Runtime.AuditStore.{
  Event, AuditStore, Clock, Filters, new_event, cleanup_expired, append_once, get, append, matches,
  watch,
}
use nova_adapt.Runtime.AuditStore.Watch.{
  Call, length-filter, appends, prunes, apply, apply_all, IsLog, watch-log, read_back-same,
}

-- The largest identifier that was met.
abbrev pub top : ℕ → List Event → ℕ
top last [] = last
top last (e ∷ es) = top (max last e.id) es

-- The rows `added` were added, at most `n` of them, all under new identifiers.
pub record Grown (n : ℕ) (s s' : AuditStore) : Type 0 where
  pub added : List Event
  pub rows : s'.rows ≡ s.rows ++ added
  pub few : length added ≤ n
  pub later : s.last_id ≤ s'.last_id
  pub reached : top s.last_id added ≡ s'.last_id
  pub kept : s'.retention ≡ s.retention
  pub fresh : All (λ e. s.last_id < e.id) added

abbrev pub Grown-none : (n : ℕ) (s : AuditStore) → Grown n s s
Grown-none n s = record {
  added = [];
  rows = sym (append-nil s.rows);
  few = omega arith;
  later = omega arith;
  reached = refl;
  kept = refl;
  fresh = tt;
}

pub top-append : (last : ℕ) (xs ys : List Event) → top last (xs ++ ys) ≡ top (top last xs) ys
top-append last [] ys = refl
top-append last (x ∷ xs) ys = top-append (max last x.id) xs ys

abbrev pub Grown-step :
    (n k : ℕ) (s1 s2 s3 : AuditStore) → Grown n s1 s2 → Grown k s2 s3 → Grown (n + k) s1 s3
Grown-step n k s1 s2 s3 h g = record {
  added = h.added ++ g.added;
  rows = g.rows ∙ ap (λ xs. xs ++ g.added) h.rows ∙ append_assoc s1.rows h.added g.added;
  few = omega (arith, length-append h.added g.added, h.few, g.few);
  later = omega (arith, h.later, g.later);
  reached =
      top-append s1.last_id h.added g.added ∙ ap (λ last. top last g.added) h.reached ∙ g.reached;
  kept = g.kept ∙ h.kept;
  fresh =
      All-append (λ e. s1.last_id < e.id) h.added g.added h.fresh
        (All-imp g.added (λ e k. omega (arith, h.later)) g.fresh);
}

cleanup-same :
    (force : Bool) (c : Clock) (s : AuditStore)
    → s.retention ≡ 0
    → (cleanup_expired force c s).1 ≡ s
unfolding cleanup_expired
cleanup-same force c s h = rw h refl

apply-Grown : (c : Call) (s : AuditStore) → s.retention ≡ 0 → Grown 1 s (apply c s)
unfolding append append_once
apply-Grown (appends c n) s h =
    let s' = append_once c n s in
    let e = new_event c.wall (suc s.last_id) n in
    let same = read_back-same (get s'.last_id s') s' in
    let grown : Grown 1 s s' = rw (cleanup-same false c s h) (record {
      added = e ∷ [];
      rows = refl;
      few = omega arith;
      later = omega arith;
      reached = omega arith;
      kept = refl;
      fresh = (omega arith, tt);
    }) in
    subst (Grown 1 s) (sym same) grown
apply-Grown (prunes c) s h = subst (Grown 1 s) (sym (cleanup-same true c s h)) (Grown-none 1 s)

pub apply_all-Grown :
    (calls : List Call) (s : AuditStore)
    → s.retention ≡ 0
    → Grown (length calls) s (apply_all calls s)
apply_all-Grown [] s h = Grown-none 0 s
apply_all-Grown (c ∷ calls) s h =
    let one = apply-Grown c s h in
    subst (λ n. Grown n s (apply_all calls (apply c s))) (omega arith)
      (Grown-step 1 (length calls) s (apply c s) (apply_all calls (apply c s)) one
        (apply_all-Grown calls (apply c s) (one.kept ∙ h)))

filter-All {ℓ} :
    {A : Type ℓ} (p : A → Bool) (xs : List A) → All (λ x. p x ≡ true) xs → filter p xs ≡ xs
filter-All p [] h = refl
filter-All p (x ∷ xs) h = ground (arith, filter-All p xs h.1)

filter_none {ℓ} :
    {A : Type ℓ} (p : A → Bool) (xs : List A) → All (λ x. p x ≡ false) xs → filter p xs ≡ []
filter_none p [] h = refl
filter_none p (x ∷ xs) h = ground (arith, filter_none p xs h.1)

abbrev pub after_id : ℕ → Filters
after_id last = record { category = ""; entity_type = ""; entity_id = ""; since_id = some last }

pub filter-Grown :
    (n : ℕ) (s s' : AuditStore) (g : Grown n s s')
    → IsLog s
    → filter (λ e. ltb s.last_id e.id) s'.rows ≡ g.added
filter-Grown n s s' g h =
    let p : Event → Bool = λ e. ltb s.last_id e.id in
    ap (filter p) g.rows
    ∙ filter-append p s.rows g.added
    ∙ ap (λ xs. xs ++ filter p g.added)
        (filter_none p s.rows (All-imp s.rows (λ e k. ground arith) h.1))
    ∙ filter-All p g.added (All-imp g.added (λ e k. ground arith) g.fresh)

-- Watching from the last row of before shows the rows that were added.
pub watch-Grown :
    (n : ℕ) (s s' : AuditStore) (g : Grown n s s')
    → n ≤ 200
    → IsLog s
    → IsLog s'
    → watch 200 (after_id s.last_id) s' ≡ g.added
unfolding matches
watch-Grown n s s' g few h h' =
    let found = filter-Grown n s s' g h in
    watch-log 200 (after_id s.last_id) s' h'
      (omega (arith, length-filter (λ e. ltb s.last_id e.id) s'.rows, ap length found, g.few))
    ∙ found
