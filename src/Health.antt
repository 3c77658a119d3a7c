-- ===== src/Health.antt =====
-- apps/pricing/health.py: the three probes and what `healthcheck` makes of them. The driver, the client
-- and the socket are parameters, of which only the outcome counts: they returned, or what they raised.
pub mod Verdict
mod Tests
use pricestream.Base.{ℕ, Bool, true, false, ◌||◌, Option, none, some, List, [], ◌∷◌, if◌then◌else◌}
use pricestream.Base.Text.{Text, partition}
use pricestream.Base.Result.{Exn, Result, ok, raise, ◌>>=◌}

pub data Status : Type 0 where
  up down unknown : Status

-- The text of an error: that of an exception, or that no servers are configured.
pub data Fault : Type 0 where
  fault : Exn → Fault
  no_servers : Fault

-- `try: …; return "up", None`, with `except Exception as exc: return "down", str(exc)`
abbrev pub probe : Result (Unit {0}) → Status × Option Fault
probe (ok _) = (up, none)
probe (raise x) = (down, some (fault x))

-- `_check_database` and `_check_redis`, by what their calls did.
unfoldable pub check_database : Result (Unit {0}) → Status × Option Fault
check_database = probe

unfoldable pub check_redis : Result (Unit {0}) → Status × Option Fault
check_redis = probe

-- `int(port or 9092)`
abbrev pub port_of : (Text → Result ℕ) → Text → Result ℕ
port_of to_int [] = ok 9092
port_of to_int (c ∷ port) = to_int (c ∷ port)

-- `_check_kafka`, where `to_int` is `int` and `connect` opens and closes a connection.
unfoldable pub check_kafka :
    (Text → Result ℕ) → (Text → ℕ → Result (Unit {0})) → Text → Status × Option Fault
check_kafka to_int connect servers =
    let (host, _, port) = partition b':' servers in
    elim host [
      | [] ↦ (unknown, some no_servers)
      | c ∷ cs ↦ probe (port_of to_int port >>= connect (c ∷ cs))
    ]

-- `payload["status"]`
pub data Overall : Type 0 where
  fine degraded critical : Overall

pub record Response : Type 0 where
  pub overall : Overall
  pub database : Status × Option Fault
  pub redis : Status × Option Fault
  pub kafka : Status × Option Fault
  pub code : ℕ

abbrev pub is_down : Status → Bool
is_down up = false
is_down down = true
is_down unknown = false

-- `healthcheck`
unfoldable pub healthcheck :
    Status × Option Fault → Status × Option Fault → Status × Option Fault → Response
healthcheck db redis kafka =
    let response : Overall → ℕ → Response = λ overall code. record {
      overall = overall;
      database = db;
      redis = redis;
      kafka = kafka;
      code = code;
    } in
    if is_down db.0
    then response critical 503
    else if is_down redis.0 || is_down kafka.0
    then response degraded 200
    else response fine 200
