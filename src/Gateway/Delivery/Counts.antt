-- ===== src/Gateway/Delivery/Counts.antt =====
-- The numbers that `deliver` reports.
use nova_adapt.Base.{
  ℕ, ◌+◌, String, Bool, ◌≡◌, refl, true, false, ◌&&◌, Option, none, some, List, [], ◌∷◌, arith,
  if◌then◌else◌, length, count, filter, ◌∙◌, ◌↔◌,
}
use nova_adapt.Base.Order.{order_by, count-order_by}
use nova_adapt.Gateway.Queue.{Target, list_pending_deliveries, is_pending, by_target}
use nova_adapt.Gateway.Delivery.{
  Post, Resolver, connector_name, message_of, deliver, deliver_rows, deliver_row,
}

-- The target's connector is there, and its `send` returns.
abbrev accepts : Option String → Bool
accepts none = true
accepts (some e) = false

abbrev pub succeeds : Resolver → String → Target → Bool
succeeds resolve content t = elim (resolve (connector_name t)) [
  | none ↦ false
  | some send ↦ accepts (send (message_of content t))
]

row_counts :
    (resolve : Resolver) (now : ℕ) (job_id content : String) (t : Target) (p : Post)
    (sent failed : ℕ)
    → let (sent', failed', p') =
        deliver_row now job_id content t p (sent, failed) (resolve (connector_name t)) in
      (sent' ≡ sent + (if succeeds resolve content t then 1 else 0))
      × (failed' + (if succeeds resolve content t then 1 else 0) ≡ failed + 1)
unfolding deliver_row
row_counts resolve now job_id content t p sent failed = ground arith

rows_counts :
    (resolve : Resolver) (now : ℕ) (job_id content : String) (rows : List Target) (sent failed : ℕ)
    (p : Post)
    → let (sent', failed', p') = deliver_rows resolve now job_id content rows (sent, failed, p) in
      (sent' ≡ sent + count (succeeds resolve content) rows)
      × (sent' + failed' ≡ sent + failed + length rows)
unfolding deliver_rows
rows_counts resolve now job_id content [] sent failed p = (omega arith, omega arith)
rows_counts resolve now job_id content (t ∷ rows) sent failed p =
    let (sent', failed', p') =
      deliver_row now job_id content t p (sent, failed) (resolve (connector_name t)) in
    ground (
      arith,
      row_counts resolve now job_id content t p sent failed,
      rows_counts resolve now job_id content rows sent' failed' p',
    )

count-filter {ℓ} :
    {A : Type ℓ} (p r : A → Bool) (xs : List A) → count r (filter p xs) ≡ count (λ x. p x && r x) xs
count-filter p r [] = refl
count-filter p r (x ∷ xs) = ground (arith, count-filter p r xs)

length-count {ℓ} : {A : Type ℓ} (xs : List A) → length xs ≡ count (λ x. true) xs
length-count [] = refl
length-count (x ∷ xs) = omega (arith, length-count xs)

count-true-filter {ℓ} :
    {A : Type ℓ} (p : A → Bool) (xs : List A) → count (λ x. true) (filter p xs) ≡ count p xs
count-true-filter p [] = refl
count-true-filter p (x ∷ xs) = ground (arith, count-true-filter p xs)

-- `deliver` attempts each target of the job that is pending or has failed before, once; it reports as
-- sent those whose connector is there and accepts the message, as failed the rest, and success exactly
-- when none failed.
pub deliver_counts :
    (resolve : Resolver) (now : ℕ) (job_id content : String) (p : Post)
    → let tally = (deliver resolve now job_id content p).0 in
      (tally.attempted ≡ count (is_pending job_id) p.queue.deliveries)
      × (tally.sent
          ≡ count (λ t. is_pending job_id t && succeeds resolve content t) p.queue.deliveries)
      × (tally.sent + tally.failed ≡ tally.attempted)
      × ((tally.ok ≡ true) ↔ (tally.sent ≡ tally.attempted))
unfolding deliver list_pending_deliveries
deliver_counts resolve now job_id content p =
    let due = filter (is_pending job_id) p.queue.deliveries in
    let rows = order_by by_target due in
    let counts = rows_counts resolve now job_id content rows 0 0 p in
    let all_rows = length-count rows in
    let all_due = count-order_by by_target (λ x. true) due in
    let due_count = count-true-filter (is_pending job_id) p.queue.deliveries in
    let won = count-order_by by_target (succeeds resolve content) due in
    let won_count =
      count-filter (is_pending job_id) (succeeds resolve content) p.queue.deliveries in
    (
      all_rows ∙ all_due ∙ due_count,
      omega (arith, counts.0, won, won_count),
      omega (arith, counts.1),
      (λ h. ground (arith, counts.1), λ h. ground (arith, counts.1)),
    )
