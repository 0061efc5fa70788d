-- ===== src/Runtime/AuditStore/Watch.antt =====
-- What a watcher of the audit log sees.
pub mod Grows
use nova_adapt.Base.{
  ℕ, zero, suc, ◌≤◌, ◌<◌, Bool, true, false, not, ◌≡◌, refl, sym, ap, subst, Option, none, some,
  ◌+◌, ◌||◌, ◌==◌, ◌∙◌, Bool-cases, inl, inr, List, [], ◌∷◌, ◌++◌, max, filter, count, length, take,
  All, All-append, All-imp, All-filter_self, arith,
}
use mathlib.Core.List.{reverse, reverse_aux, reverse-cons, reverse-reverse}
use nova_adapt.Base.Order.{order_by, insert_sorted, All-order_by}
use nova_adapt.Runtime.AuditStore.{
  Event, AuditStore, Clock, NewEvent, Filters, new_event, is_expired, is_throttled, cleanup_expired,
  prune_expired, append_once, append, read_back, get, matches, latest_first, list, watch,
  make_store,
}

-- A call that changes the store.
pub data Call : Type 0 where
  appends : Clock → NewEvent → Call
  prunes : Clock → Call

abbrev apply : Call → AuditStore → AuditStore
apply (appends c n) s = (append c n s).1
apply (prunes c) s = (prune_expired c s).1

abbrev pub apply_all : List Call → AuditStore → AuditStore
apply_all [] s = s
apply_all (c ∷ calls) s = apply_all calls (apply c s)

-- Later rows have larger identifiers.
abbrev IsAscending : List Event → Type 0
IsAscending [] = Unit
IsAscending (e ∷ es) = All (λ x. e.id < x.id) es × IsAscending es

abbrev pub IsLog : AuditStore → Type 0
IsLog s = IsAscending s.rows × All (λ e. e.id ≤ s.last_id) s.rows

IsAscending-filter :
    (p : Event → Bool) (es : List Event) → IsAscending es → IsAscending (filter p es)
IsAscending-filter p [] h = tt
IsAscending-filter p (e ∷ es) h = elim (Bool-cases (p e)) [
  | inl kept ↦ rw kept (All-filter_self (λ x. e.id < x.id) p es h.0, IsAscending-filter p es h.1)
  | inr dropped ↦ rw dropped (IsAscending-filter p es h.1)
]

IsAscending-snoc :
    (es : List Event) (e : Event)
    → IsAscending es
    → All (λ x. x.id < e.id) es
    → IsAscending (es ++ e ∷ [])
IsAscending-snoc [] e h k = (tt, tt)
IsAscending-snoc (x ∷ es) e h k =
    (All-append (λ y. x.id < y.id) es (e ∷ []) h.0 (k.0, tt), IsAscending-snoc es e h.1 k.1)

insert_last :
    (e : Event) (es : List Event)
    → All (λ x. e.id < x.id) es
    → insert_sorted latest_first e es ≡ es ++ e ∷ []
unfolding insert_sorted
insert_last e [] h = refl
insert_last e (x ∷ es) h = ground (arith, insert_last e es h.1)

order_by-reverse : (es : List Event) → IsAscending es → order_by latest_first es ≡ reverse es
unfolding order_by
order_by-reverse [] h = refl
order_by-reverse (e ∷ es) h =
    insert_last e (order_by latest_first es) (All-order_by latest_first (λ x. e.id < x.id) es h.0)
    ∙ ap (λ xs. xs ++ e ∷ []) (order_by-reverse es h.1)
    ∙ sym (reverse-cons e es)

take-all {ℓ} : {A : Type ℓ} (n : ℕ) (xs : List A) → length xs ≤ n → take n xs ≡ xs
take-all zero [] h = refl
take-all (suc n) [] h = refl
take-all zero (x ∷ xs) h = ground arith
take-all (suc n) (x ∷ xs) h = ap (λ ys. x ∷ ys) (take-all n xs (omega arith))

length-reverse_aux {ℓ} :
    {A : Type ℓ} (xs r : List A) → length (reverse_aux xs r) ≡ length xs + length r
length-reverse_aux [] r = omega arith
length-reverse_aux (x ∷ xs) r = omega (arith, length-reverse_aux xs (x ∷ r))

length-filter {ℓ} : {A : Type ℓ} (p : A → Bool) (xs : List A) → length (filter p xs) ≡ count p xs
length-filter p [] = refl
length-filter p (x ∷ xs) = ground (arith, length-filter p xs)

watch-log :
    (limit : ℕ) (f : Filters) (s : AuditStore)
    → IsLog s
    → count (matches f) s.rows ≤ max 1 limit
    → watch limit f s ≡ filter (matches f) s.rows
unfolding watch list
watch-log limit f s h fits =
    let es = filter (matches f) s.rows in
    let fits' : length (reverse es) ≤ max 1 (max 1 limit) =
      omega (arith, length-reverse_aux es [], length-filter (matches f) s.rows) in
    ap (λ xs. reverse (take (max 1 (max 1 limit)) xs))
      (order_by-reverse es (IsAscending-filter (matches f) s.rows h.0))
    ∙ ap reverse (take-all (max 1 (max 1 limit)) (reverse es) fits')
    ∙ reverse-reverse es

cleanup-IsLog :
    (force : Bool) (c : Clock) (s : AuditStore) → IsLog s → IsLog (cleanup_expired force c s).1
unfolding cleanup_expired
cleanup-IsLog force c s h = elim (Bool-cases (s.retention == 0 || is_throttled force c s)) [
  | inl skipped ↦ rw skipped h
  | inr made ↦
      let p : Event → Bool = λ e. not (is_expired c.wall s.retention e) in
      rw made
        (IsAscending-filter p s.rows h.0, All-filter_self (λ e. e.id ≤ s.last_id) p s.rows h.1)
]

append_once-IsLog :
    (c : Clock) (n : NewEvent) (s : AuditStore) → IsLog s → IsLog (append_once c n s)
unfolding append_once
append_once-IsLog c n s h =
    let s' = (cleanup_expired false c s).1 in
    let h' = cleanup-IsLog false c s h in
    let e = new_event c.wall (suc s'.last_id) n in
    (
      IsAscending-snoc s'.rows e h'.0 (All-imp s'.rows (λ x k. omega arith) h'.1),
      All-append (λ x. x.id ≤ suc s'.last_id) s'.rows (e ∷ [])
          (All-imp s'.rows (λ x k. omega arith) h'.1) (omega arith, tt),
    )

read_back-same : (o : Option Event) (s : AuditStore) → (read_back o s).1 ≡ s
unfolding read_back
read_back-same none s = refl
read_back-same (some e) s = refl

apply-IsLog : (c : Call) (s : AuditStore) → IsLog s → IsLog (apply c s)
unfolding append
apply-IsLog (appends c n) s h =
    let s' = append_once c n s in
    subst IsLog (sym (read_back-same (get s'.last_id s') s')) (append_once-IsLog c n s h)
apply-IsLog (prunes c) s h = cleanup-IsLog true c s h

pub apply_all-IsLog : (calls : List Call) (s : AuditStore) → IsLog s → IsLog (apply_all calls s)
apply_all-IsLog [] s h = h
apply_all-IsLog (c ∷ calls) s h = apply_all-IsLog calls (apply c s) (apply-IsLog c s h)

-- After any calls of `append` and `prune_expired` on a new store, at any clock readings: if no more rows
-- than the limit (at least 1) pass the filters of `events_wait`, its round returns exactly these rows,
-- each once, in the order in which they were appended.
pub watch_complete :
    (calls : List Call) (retention interval limit : ℕ) (f : Filters)
    → count (matches f) (apply_all calls (make_store retention interval)).rows ≤ max 1 limit
    → watch limit f (apply_all calls (make_store retention interval))
      ≡ filter (matches f) (apply_all calls (make_store retention interval)).rows
watch_complete calls retention interval limit f fits =
    let s = make_store retention interval in
    watch-log limit f (apply_all calls s) (apply_all-IsLog calls s (tt, tt)) fits
