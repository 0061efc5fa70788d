-- ===== src/Server/Limiter.antt =====
-- `_PerClientSlidingWindowRateLimiter` of core/novaadapt_core/server.py, and the tests of a request in
-- core/novaadapt_core/server_handler.py that come before its handler. The two dictionaries of the limiter
-- always have the same keys and are one table here; times are readings of `time.monotonic()`.
pub mod Windows
pub mod Rows
pub mod Limits
use Prim.Native.String
use nova_adapt.Base.{
  ℕ, ◌+◌, String, Bool, true, false, not, ◌&&◌, ◌||◌, Option, none, some, List, [], ◌∷◌, ◌++◌, ltb,
  leb, str_eq, length, max, any, string_eq,
}
use nova_adapt.Base.Text.{strip, or_else, is_empty}
use nova_adapt.Base.Find.{starts_with, ends_with}
use nova_adapt.Base.Table
use nova_adapt.Base.Table.Where.{delete_where}

pub record Client : Type 0 where
  pub name : String
  pub timestamps : List ℕ
  pub last_seen : ℕ

pub record Limiter : Type 0 where
  pub burst : ℕ
  pub window : ℕ
  pub idle_ttl : ℕ
  pub clients : List Client

-- `__init__`; `minute` is the number of ticks of a minute.
abbrev pub make_limiter : (minute burst window idle_ttl : ℕ) → Limiter
make_limiter minute burst window idle_ttl = record {
  burst = max 1 burst;
  window = window;
  idle_ttl = max minute idle_ttl;
  clients = [];
}

abbrev pub name_of : Client → String
name_of c = c.name

abbrev pub is_stale : ℕ → ℕ → Client → Bool
is_stale now idle_ttl c = ltb (c.last_seen + idle_ttl) now

-- The loop that drops what lies before the window.
abbrev pub drop_old : ℕ → ℕ → List ℕ → List ℕ
drop_old now window [] = []
drop_old now window (t ∷ ts) = elim (ltb (t + window) now) [
  | true ↦ drop_old now window ts
  | false ↦ t ∷ ts
]

abbrev pub seen_before : Option Client → List ℕ
seen_before none = []
seen_before (some c) = c.timestamps

abbrev pub put_client : Client → List Client → List Client
put_client c clients = Table.upsert name_of c (λ _. c) clients

-- `allow`
unfoldable pub allow : ℕ → String → Limiter → Bool × Limiter
allow now key l =
    let name = or_else (strip (or_else key "unknown")) "unknown" in
    let clients = delete_where (is_stale now l.idle_ttl) l.clients in
    let recent = drop_old now l.window (seen_before (Table.select name_of name clients)) in
    elim (leb l.burst (length recent)) [
      | true ↦ (
        false,
        record l {
          clients =
              put_client (record { name = name; timestamps = recent; last_seen = now }) clients;
        },
      )
      | false ↦ (
        true,
        record l {
          clients =
              put_client (record { name = name; timestamps = recent ++ now ∷ []; last_seen = now })
                clients;
        },
      )
    ]

-- `_is_rate_limited`, for a request of the client `key`.
unfoldable pub is_rate_limited : ℕ → String → String → Option Limiter → Bool × Option Limiter
unfolding allow
is_rate_limited now key path none = (false, none)
is_rate_limited now key path (some l) = elim (str_eq path "/health" || str_eq path "/metrics") [
  | true ↦ (false, some l)
  | false ↦ let (ok, l') = allow now key l in (not ok, some l')
]

-- What `_check_auth` reads: whether the caller hands over the query, and the token and header in the request.
pub record Request : Type 0 where
  pub path : String
  pub has_query : Bool
  pub query_token : Option String
  pub authorization : String

-- The paths that need no token.
unfoldable pub is_open : String → Bool
unfolding starts_with ends_with
is_open path =
    str_eq path "/health"
    || starts_with "/agents/templates/shared/" path
    || (starts_with "/channels/" path && ends_with "/inbound" path)

-- The paths for which the token may stand in the query.
unfoldable pub takes_query_token : String → Bool
unfolding starts_with
takes_query_token path =
    any (str_eq path) ("/dashboard" ∷ "/dashboard/canvas-workflows" ∷ "/dashboard/data" ∷ [])
    || str_eq path "/control/artifacts"
    || starts_with "/control/artifacts/" path

abbrev pub is_token : String → Option String → Bool
is_token token none = false
is_token token (some t) = str_eq t token

-- `_check_auth`, whether it lets the request through.
unfoldable pub check_auth : String → Request → Bool
unfolding is_open takes_query_token
check_auth api_token r =
    is_open r.path
    || is_empty api_token
    || (r.has_query && takes_query_token r.path && is_token api_token r.query_token)
    || str_eq r.authorization (String.◌++◌ "Bearer " api_token)
