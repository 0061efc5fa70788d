-- ===== src/Gateway/Delivery/Settled.antt =====
-- What the targets are after `deliver`.
use nova_adapt.Base.{
  Eq, ℕ, String, Bool, ◌≡◌, refl, ap, ◌∙◌, false, Option, none, some, List, [], ◌∷◌, arith,
  if◌then◌else◌, filter, All, All-imp, All-zip, All-filter, All-filter_self, string_eq, pair_eq,
  eq_iff, beq_refl,
}
use Prim.Native.String
use mathlib.Core.Option
use nova_adapt.Base.Order.{order_by, All-order_by, All-of_order_by}
use nova_adapt.Base.Table
use nova_adapt.Base.Table.Keys.{Keyed, select_self}
use nova_adapt.Base.Table.Distinct.{
  Distinct, Keyed-Distinct, Distinct-filter, Distinct-order_by, Differs, Differs-sym,
}
use nova_adapt.Gateway.Queue.{
  Target, Queue, target_key, list_pending_deliveries, mark_delivery, is_pending, by_target,
}
use nova_adapt.Gateway.Delivery.{
  Post, Resolver, Connector, connector_name, address_of, message_of, deliver, deliver_rows,
  deliver_row, after_send,
}

abbrev pub select_target : String × (String × String) → Queue → Option Target
select_target k q = Table.select target_key k q.deliveries

-- The connector's name and the address are as `deliver` normalises them.
pub record IsNormal (t : Target) : Type 0 where
  pub connector : connector_name t ≡ t.connector
  pub address : address_of t ≡ t.address

-- The status and the error text that one turn of the loop writes, by what `send` did, and by the
-- connector that was found.
abbrev pub sent_verdict : Option String → String × String
sent_verdict none = ("sent", "")
sent_verdict (some e) = ("failed", e)

abbrev pub verdict_of : String → Target → Option Connector → String × String
verdict_of content t none = ("dead_letter", String.◌++◌ "missing connector: " (connector_name t))
verdict_of content t (some send) = sent_verdict (send (message_of content t))

abbrev pub verdict : Resolver → String → Target → String × String
verdict resolve content t = verdict_of content t (resolve (connector_name t))

abbrev pub write : ℕ → String × String → Target → Target
write now v x = record x { status = v.0; last_error = v.1; last_attempt_at = some now }

abbrev pub normal_key : String → Target → String × (String × String)
normal_key job_id t = (job_id, (connector_name t, address_of t))

send-queue :
    (now : ℕ) (job_id : String) (t : Target) (p : Post) (counts : ℕ × ℕ) (o : Option String)
    → (after_send now job_id t p counts o).2.queue.deliveries
      ≡ Table.update target_key
          (normal_key job_id t)
          (write now (sent_verdict o))
          p.queue.deliveries
unfolding after_send mark_delivery
send-queue now job_id t p (sent, failed) none = refl
send-queue now job_id t p (sent, failed) (some e) = refl

-- One turn of the loop writes under the normalised key.
pub row-queue :
    (now : ℕ) (job_id content : String) (t : Target) (p : Post) (counts : ℕ × ℕ)
    (o : Option Connector)
    → (deliver_row now job_id content t p counts o).2.queue.deliveries
      ≡ Table.update target_key
          (normal_key job_id t)
          (write now (verdict_of content t o))
          p.queue.deliveries
unfolding deliver_row mark_delivery
row-queue now job_id content t p (sent, failed) none = refl
row-queue now job_id content t p counts (some send) =
    let m = message_of content t in
    send-queue now job_id t (record p { sent = m ∷ p.sent }) counts (send m)

-- The targets of the job that are due are normal.
abbrev pub DueNormal : String → List Target → Type 0
DueNormal job_id deliveries = All IsNormal (filter (is_pending job_id) deliveries)

module _ (resolve : Resolver) (now : ℕ) (job_id content : String) where
  -- Rows of the job whose keys are normal and pairwise different, as the table holds them.
  abbrev pub Mine : Target → Type 0
  Mine t = (t.job_id ≡ job_id) × IsNormal t

  pub own_key : (t : Target) → Mine t → normal_key job_id t ≡ target_key t
  own_key t h = ground (arith, h.0, h.1.connector, h.1.address)

  abbrev pub turn : Target → ℕ × ℕ → Post → ℕ × ℕ × Post
  turn t counts p = deliver_row now job_id content t p counts (resolve (connector_name t))

  abbrev pub loop : List Target → ℕ × ℕ → Post → Queue
  loop rows counts p =
      (deliver_rows resolve now job_id content rows (counts.0, counts.1, p)).2.queue

  abbrev pub same_key : String × (String × String) → String × (String × String) → Bool
  same_key k j = Eq.beq pair_eq k j

  turn-select :
      (t : Target) (counts : ℕ × ℕ) (p : Post) (k : String × (String × String))
      → Mine t
      → select_target k (turn t counts p).2.queue ≡ (
          if same_key (target_key t) k
          then Option.map (write now (verdict resolve content t)) (select_target k p.queue)
          else select_target k p.queue)
  turn-select t counts p k mine =
      rw (row-queue now job_id content t p counts (resolve (connector_name t))) (
        rw (own_key t mine) (
          Table.select-update target_key (target_key t) k (write now (verdict resolve content t))
            p.queue.deliveries (λ x. refl)))

  rows-others :
      (k : String × (String × String)) (rows : List Target) (counts : ℕ × ℕ) (p : Post)
      → All (λ t. Mine t × (same_key (target_key t) k ≡ false)) rows
      → select_target k (loop rows counts p) ≡ select_target k p.queue
  unfolding deliver_rows
  rows-others k [] counts p h = refl
  rows-others k (t ∷ rows) counts p h =
      let (s, f, p1) = turn t counts p in
      rows-others k rows (s, f) p1 h.1 ∙ ground (arith, turn-select t counts p k h.0.0, h.0.1)

  abbrev Stored : Post → Target → Type 0
  Stored p t = select_target (target_key t) p.queue ≡ some t

  abbrev pub Settled : Queue → Target → Type 0
  Settled q t = select_target (target_key t) q ≡ some (write now (verdict resolve content t) t)

  rows-Settled :
      (rows : List Target) (counts : ℕ × ℕ) (p : Post)
      → Distinct target_key rows
      → All Mine rows
      → All (Stored p) rows
      → All (Settled (loop rows counts p)) rows
  unfolding deliver_rows
  rows-Settled [] counts p d m h = tt
  rows-Settled (t ∷ rows) counts p d m h =
      let (s, f, p1) = turn t counts p in
      let apart : All (λ r. Mine r × (same_key (target_key r) (target_key t) ≡ false)) rows =
        All-zip Mine (λ r. same_key (target_key r) (target_key t) ≡ false) rows m.1
          (All-imp rows (λ r differs. Differs-sym target_key t r differs) d.0) in
      let own = turn-select t counts p (target_key t) m.0 in
      let f_own = write now (verdict resolve content t) in
      let found : (if same_key (target_key t) (target_key t)
            then Option.map f_own (select_target (target_key t) p.queue)
            else select_target (target_key t) p.queue)
          ≡ some (f_own t) =
        rw (beq_refl (target_key t)) (ap (Option.map f_own) h.0) in
      let rest : All (Stored p1) rows =
        All-imp rows (λ r k. ground (arith, turn-select t counts p (target_key r) m.0, k.0, k.1))
          (All-zip (Differs target_key t) (Stored p) rows d.0 h.1) in
      (
        rows-others (target_key t) rows (s, f) p1 apart ∙ own ∙ found,
        rows-Settled rows (s, f) p1 d.1 m.1 rest,
      )

  abbrev pub after : Post → Queue
  after p = (deliver resolve now job_id content p).1.queue

  pub due-Mine :
      (deliveries : List Target)
      → DueNormal job_id deliveries
      → All Mine (filter (is_pending job_id) deliveries)
  due-Mine deliveries normal =
      All-zip (λ t. t.job_id ≡ job_id) IsNormal (filter (is_pending job_id) deliveries)
        (All-filter (λ t. t.job_id ≡ job_id) (is_pending job_id) deliveries
          (λ t waits. ground (arith, eq_iff t.job_id job_id)))
        normal

  module _ (p : Post) (keyed : Keyed target_key p.queue.deliveries)
      (normal : DueNormal job_id p.queue.deliveries) where
    abbrev due : List Target
    due = filter (is_pending job_id) p.queue.deliveries

    pub loop_is : after p ≡ loop (list_pending_deliveries job_id p.queue) (0, 0) p
    unfolding deliver
    loop_is = refl

    -- `deliver` settles every target of the job that was due (pending, or failed before), if the table
    -- has its primary key intact and their connectors and addresses are stored as `deliver` normalizes
    -- them: the row is "sent" if the connector is there and `send` returns, "failed" with the error if
    -- it raises, and "dead_letter" if there is no connector, each with the time of the attempt.
    pub deliver-due : All (Settled (after p)) (filter (is_pending job_id) p.queue.deliveries)
    unfolding list_pending_deliveries
    deliver-due =
        let rows = order_by by_target due in
        rw loop_is (
          All-of_order_by by_target (Settled (loop rows (0, 0) p)) due (
            rows-Settled rows (0, 0) p
              (Distinct-order_by target_key by_target due (
                Distinct-filter target_key (is_pending job_id) p.queue.deliveries
                  (Keyed-Distinct target_key p.queue.deliveries keyed)))
              (All-order_by by_target Mine due (due-Mine p.queue.deliveries normal))
              (All-order_by by_target (Stored p) due (
                All-filter_self (Stored p) (is_pending job_id) p.queue.deliveries
                  (select_self target_key p.queue.deliveries keyed)))))
