-- ===== src/Checkers/Redis.antt =====
-- checks/redis/check.go: PING must be answered by PONG.
pub mod Kept
use health_go.Base.{String, Bool, not, ◌&&◌, Option, [], ◌∷◌, ◌==◌, if◌then◌else◌}
use health_go.Base.Text.{◌<>◌, has_prefix}
use health_go.Check.{CheckResponse}
use health_go.Checkers.{Reply, Trace, Body, succeed, call, perform, finally, demand, respond}

pub record Config : Type 0 where
  pub dsn : String

-- a DSN with no schema gets one
unfoldable pub redis_dsn : String → String
redis_dsn dsn =
    if not (has_prefix dsn "redis://") && not (has_prefix dsn "rediss://")
    then "redis://" <> dsn
    else dsn

-- `new_client` takes a pointer to options
pub data Call (O : Type 0) : Type 0 where
  new_client : Option O → Call O
  ping close_client : Call O

-- `parse_url` is the first result of `redis.ParseURL`, nil with an error, which the check drops; `quote`
-- is `%q`
module _ {O : Type 0} (answer : Trace (Call O) String → Call O → Reply String)
    (parse_url : String → Option O) (quote : String → String) where
  unfoldable pub check_body : Option O → Body (Call O) String
  unfolding call perform finally demand succeed
  check_body redis_options = perform answer (new_client redis_options) (
      finally answer close_client (
        call answer ping "redis ping failed" (λ pong.
          demand (pong == "PONG") ("unexpected response for redis ping: " <> quote pong) succeed)))

  unfoldable pub check : Config → CheckResponse × Trace (Call O) String
  unfolding check_body redis_dsn
  check c =
      let (error, trace) = check_body (parse_url (redis_dsn c.dsn)) [] in (respond error, trace)
