-- ===== src/Gateway/Delivery.antt =====
-- `DeliveryManager` of core/novaadapt_core/agent_gateway/delivery.py. The connectors are a parameter:
-- a resolver, and what a call of `send` does. The attachments of `deliver` are left out: its caller, the
-- daemon, passes none.
pub mod Counts
pub mod Settled
pub mod Once
use nova_adapt.Base.{
  ℕ, zero, suc, ◌+◌, String, Bool, true, false, Option, none, some, List, [], ◌∷◌, ◌++◌,
  if◌then◌else◌, length, ◌==◌,
}
use Prim.Native.String
use nova_adapt.Base.Text.{strip, or_else}
use nova_adapt.Base.Lower.{lower}
use nova_adapt.Gateway.Queue.{
  Target, Queue, list_pending_deliveries, mark_delivery, upsert_delivery,
}

-- A message that was handed to a connector's `send`.
pub record Message : Type 0 where
  pub connector : String
  pub address : String
  pub token : String
  pub content : String

-- `none` is a `send` that returns; `some e` is one that raises with the text `e`.
abbrev pub Connector : Type 0
Connector = Message → Option String

abbrev pub Resolver : Type 0
Resolver = String → Option Connector

-- The queue's database, and the messages that have been handed over, the last one first.
pub record Post : Type 0 where
  pub queue : Queue
  pub sent : List Message

pub record Tally : Type 0 where
  pub ok : Bool
  pub job_id : String
  pub attempted : ℕ
  pub sent : ℕ
  pub failed : ℕ

-- `register_reply_target`
unfoldable pub register_reply_target : (job_id connector address token : String) → Queue → Queue
register_reply_target job_id connector address token =
    upsert_delivery job_id connector address token "pending" ""

abbrev pub connector_name : Target → String
connector_name t = lower (strip t.connector)

abbrev pub address_of : Target → String
address_of t = strip t.address

abbrev pub message_of : String → Target → Message
message_of content t = record {
  connector = connector_name t;
  address = address_of t;
  token = t.token;
  content = content;
}

abbrev mark : ℕ → String → Target → String → String → Queue → Queue
mark now job_id t = mark_delivery now job_id (connector_name t) (address_of t)

after_send : ℕ → String → Target → Post → ℕ × ℕ → Option String → ℕ × ℕ × Post
after_send now job_id t p (sent, failed) none =
    (sent + 1, failed, record p { queue = mark now job_id t "sent" "" p.queue })
after_send now job_id t p (sent, failed) (some e) =
    (sent, failed + 1, record p { queue = mark now job_id t "failed" e p.queue })

-- One turn of the loop, on the counters `sent` and `failed`.
pub deliver_row : ℕ → String → String → Target → Post → ℕ × ℕ → Option Connector → ℕ × ℕ × Post
unfolding after_send
deliver_row now job_id content t p (sent, failed) none = (
  sent,
  failed + 1,
  record p {
    queue =
        mark now job_id t "dead_letter" (String.◌++◌ "missing connector: " (connector_name t))
          p.queue;
  },
)
deliver_row now job_id content t p counts (some send) =
    let m = message_of content t in
    after_send now job_id t (record p { sent = m ∷ p.sent }) counts (send m)

pub deliver_rows : Resolver → ℕ → String → String → List Target → ℕ × ℕ × Post → ℕ × ℕ × Post
unfolding deliver_row
deliver_rows resolve now job_id content [] (sent, failed, p) = (sent, failed, p)
deliver_rows resolve now job_id content (t ∷ rows) (sent, failed, p) =
    deliver_rows resolve now job_id content rows
      (deliver_row now job_id content t p (sent, failed) (resolve (connector_name t)))

-- `deliver`
unfoldable pub deliver : Resolver → (now : ℕ) → (job_id content : String) → Post → Tally × Post
unfolding deliver_rows
deliver resolve now job_id content p =
    let rows = list_pending_deliveries job_id p.queue in
    let (sent, failed, p') = deliver_rows resolve now job_id content rows (0, 0, p) in
    (
      record {
        ok = failed == 0;
        job_id = job_id;
        attempted = length rows;
        sent = sent;
        failed = failed;
      },
      p',
    )
