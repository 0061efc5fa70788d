-- ===== src/Gateway/Delivery/Once.antt =====
-- What has been delivered is not delivered again.
use nova_adapt.Base.{
  ℕ, String, Bool, true, false, ◌≡◌, refl, sym, ap, subst, ◌∙◌, List, [], ◌∷◌, arith, All, All-imp,
  any, filter, Eq, pair_eq, string_eq, Bool-cases, inl, inr, beq_refl,
}
use nova_adapt.Base.Order.{order_by, insert_sorted, All-order_by}
use nova_adapt.Base.Table
use nova_adapt.Base.Table.Distinct.{Differs-sym}
use nova_adapt.Gateway.Queue.{Target, target_key, is_pending, by_target, list_pending_deliveries}
use nova_adapt.Gateway.Delivery.{Post, Resolver, deliver, deliver_rows, connector_name}
use nova_adapt.Gateway.Delivery.Settled.{
  DueNormal, Mine, verdict, write, turn, loop, row-queue, own_key, due-Mine,
}

any-insert_sorted :
    (p : Target → Bool) (x : Target) (xs : List Target)
    → any p (insert_sorted by_target x xs) ≡ any p (x ∷ xs)
unfolding insert_sorted
any-insert_sorted p x [] = refl
any-insert_sorted p x (y ∷ ys) = ground (arith, any-insert_sorted p x ys)

any-order_by : (p : Target → Bool) (xs : List Target) → any p (order_by by_target xs) ≡ any p xs
unfolding order_by
any-order_by p [] = refl
any-order_by p (x ∷ xs) =
    ground (arith, any-insert_sorted p x (order_by by_target xs), any-order_by p xs)

-- A target that is still due has its key among those of `rows`.
abbrev same_target : Target → Target → Bool
same_target x r = Eq.beq pair_eq (target_key r) (target_key x)

abbrev Covered : String → List Target → Target → Type 0
Covered job_id rows x = is_pending job_id x ≡ true → any (same_target x) rows ≡ true

Covered-filter :
    (job_id : String) (xs : List Target) → All (Covered job_id (filter (is_pending job_id) xs)) xs
Covered-filter job_id [] = tt
Covered-filter job_id (x ∷ xs) = (
  λ waits. ground (arith, beq_refl (target_key x)),
  All-imp xs (λ y covered waits. ground (arith, covered waits)) (Covered-filter job_id xs),
)

is_pending-write :
    (job_id : String) (now : ℕ) (v : String × String) (x : Target)
    → v.0 ≡ "sent"
    → is_pending job_id (write now v x) ≡ false
is_pending-write job_id now v x sent = rw sent (ground arith)

Covered-update :
    (job_id : String) (now : ℕ) (v : String × String) (t : Target) (rows xs : List Target)
    → v.0 ≡ "sent"
    → All (Covered job_id (t ∷ rows)) xs
    → All (Covered job_id rows) (Table.update target_key (target_key t) (write now v) xs)
unfolding Table.update
Covered-update job_id now v t rows [] sent h = tt
Covered-update job_id now v t rows (x ∷ xs) sent h =
    elim (Bool-cases (Eq.beq pair_eq (target_key x) (target_key t))) [
      | inl same ↦ rw same (
        (λ waits. absurd (cc (is_pending-write job_id now v x sent, waits))),
        Covered-update job_id now v t rows xs sent h.1,
      )
      | inr other ↦
          let apart = Differs-sym target_key x t other in
          rw other
            ((λ waits. ground (arith, h.0 waits)), Covered-update job_id now v t rows xs sent h.1)
    ]

Covered-nil :
    (job_id : String) (xs : List Target)
    → All (Covered job_id []) xs
    → filter (is_pending job_id) xs ≡ []
Covered-nil job_id [] h = refl
Covered-nil job_id (x ∷ xs) h = elim (Bool-cases (is_pending job_id x)) [
  | inl waits ↦ absurd (cc (h.0 waits))
  | inr settled ↦ rw settled (Covered-nil job_id xs h.1)
]

module _ (resolve : Resolver) (now : ℕ) (job_id content : String) where
  abbrev IsSent : Target → Type 0
  IsSent t = (verdict resolve content t).0 ≡ "sent"

  loop-Covered :
      (rows : List Target) (counts : ℕ × ℕ) (p : Post)
      → All (Mine resolve now job_id content) rows
      → All IsSent rows
      → All (Covered job_id rows) p.queue.deliveries
      → All (Covered job_id []) (loop resolve now job_id content rows counts p).deliveries
  unfolding deliver_rows
  loop-Covered [] counts p m sent h = h
  loop-Covered (t ∷ rows) counts p m sent h =
      let (s, f, p1) = turn resolve now job_id content t counts p in
      let wrote : p1.queue.deliveries
          ≡ Table.update target_key (target_key t) (write now (verdict resolve content t))
              p.queue.deliveries =
        row-queue now job_id content t p counts (resolve (connector_name t))
        ∙ ap
            (λ k.
              Table.update target_key k (write now (verdict resolve content t)) p.queue.deliveries)
            (own_key resolve now job_id content t m.0) in
      loop-Covered rows (s, f) p1 m.1 sent.1
        (subst (All (Covered job_id rows)) (sym wrote) (
          Covered-update job_id now (verdict resolve content t) t rows p.queue.deliveries sent.0 h))

  -- If the due targets of a job are stored as `deliver` normalizes them, and one `deliver` gets each of
  -- them accepted by its connector, any other `deliver` for the job, with whatever content, attempts
  -- none, hands no message over and changes nothing.
  pub delivered_once :
      (p : Post) (resolve' : Resolver) (now' : ℕ) (content' : String)
      → DueNormal job_id p.queue.deliveries
      → All IsSent (filter (is_pending job_id) p.queue.deliveries)
      → let p' = (deliver resolve now job_id content p).1 in
        deliver resolve' now' job_id content' p'
        ≡ (record { ok = true; job_id = job_id; attempted = 0; sent = 0; failed = 0 }, p')
  unfolding deliver list_pending_deliveries order_by
  delivered_once p resolve' now' content' normal sent =
      let due = filter (is_pending job_id) p.queue.deliveries in
      let rows = order_by by_target due in
      let start : All (Covered job_id rows) p.queue.deliveries =
        All-imp p.queue.deliveries (λ x c waits. any-order_by (same_target x) due ∙ c waits)
          (Covered-filter job_id p.queue.deliveries) in
      let none_left =
        Covered-nil job_id (loop resolve now job_id content rows (0, 0) p).deliveries (
          loop-Covered rows (0, 0) p
            (All-order_by by_target (Mine resolve now job_id content) due
              (due-Mine resolve now job_id content p.queue.deliveries normal))
            (All-order_by by_target IsSent due sent) start) in
      rw none_left refl
