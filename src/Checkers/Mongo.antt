-- ===== src/Checkers/Mongo.antt =====
-- checks/mongo/check.go: connect, ping and disconnect, each within a timeout of its own.
pub mod Kept
use health_go.Base.{String, [], ◌∷◌}
use health_go.Base.Int.{ℤ, pos, cmp_or}
use health_go.Check.{CheckResponse}
use health_go.Checkers.{Reply, Trace, Body, succeed, call, deferred, respond}

pub record Config : Type 0 where
  pub dsn : String
  pub timeout_connect : ℤ
  pub timeout_disconnect : ℤ
  pub timeout_ping : ℤ

abbrev pub default_timeout : ℤ
default_timeout = pos 5000000000

-- the timeouts of `New`
unfoldable pub with_timeouts : Config → Config
with_timeouts c = record {
  dsn = c.dsn;
  timeout_connect = cmp_or c.timeout_connect default_timeout;
  timeout_disconnect = cmp_or c.timeout_disconnect default_timeout;
  timeout_ping = cmp_or c.timeout_ping default_timeout;
}

pub data Call : Type 0 where
  connect : String → ℤ → Call
  ping disconnect : ℤ → Call

abbrev pub Log : Type 0
Log = Trace Call Unit

module _ (answer : Log → Call → Reply Unit) where
  unfoldable pub check_body : Config → Body Call Unit
  unfolding call deferred succeed
  check_body c =
      call answer (connect c.dsn c.timeout_connect) "mongoDB health check failed on connect" (λ _.
        deferred answer (disconnect c.timeout_disconnect)
          "mongoDB health check failed on closing connection"
          (call answer (ping c.timeout_ping) "mongoDB health check failed on ping" (λ _. succeed)))

  unfoldable pub check : Config → CheckResponse × Log
  unfolding check_body with_timeouts
  check c = let (error, trace) = check_body (with_timeouts c) [] in (respond error, trace)
