-- ===== src/Checkers/Memcached.antt =====
-- checks/memcached/check.go: a ping.
pub mod Kept
use health_go.Base.{String, [], ◌∷◌}
use health_go.Base.Text.{trim_prefix, trim_suffix}
use health_go.Check.{CheckResponse}
use health_go.Checkers.{Reply, Trace, Body, succeed, call, perform, respond}

pub record Config : Type 0 where
  pub dsn : String

-- the address in a DSN with or without schema and path
unfoldable pub memcached_dsn : String → String
memcached_dsn dsn = trim_suffix (trim_prefix dsn "memcached://") "/"

pub data Call : Type 0 where
  new_client : String → Call
  ping : Call

module _ (answer : Trace Call Unit → Call → Reply Unit) where
  unfoldable pub check_body : String → Body Call Unit
  unfolding call perform succeed
  check_body memcached_dsn =
      perform answer (new_client memcached_dsn)
        (call answer ping "memcached ping failed" (λ _. succeed))

  unfoldable pub check : Config → CheckResponse × Trace Call Unit
  unfolding check_body memcached_dsn
  check c = let (error, trace) = check_body (memcached_dsn c.dsn) [] in (respond error, trace)
