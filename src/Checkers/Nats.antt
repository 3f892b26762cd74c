-- ===== src/Checkers/Nats.antt =====
-- checks/nats/check.go: the connection must be in the state CONNECTED.
pub mod Kept
use health_go.Base.{String, [], ◌∷◌, ◌==◌}
use health_go.Base.Text.{◌<>◌}
use health_go.Check.{CheckResponse}
use health_go.Checkers.{Reply, value, Trace, Body, succeed, call, finally, demand, respond}

pub record Config : Type 0 where
  pub dsn : String

pub data Call : Type 0 where
  connect : String → Call
  get_status close_connection : Call

abbrev pub Log : Type 0
Log = Trace Call String

-- `status` is what `nc.Status()` returns, by its name
module _ (answer : Log → Call → Reply String) (status : Log → String) where
  unfoldable pub check_status : Body Call String
  unfolding demand succeed
  check_status trace =
      let s = status trace in
      demand (s == "CONNECTED") ("nats health check failed as connection status is " <> s) succeed
        ((get_status, value s) ∷ trace)

  unfoldable pub check_body : Config → Body Call String
  unfolding call finally check_status
  check_body c =
      call answer (connect c.dsn) "nats health check failed on client creation"
        (λ _. finally answer close_connection check_status)

  unfoldable pub check : Config → CheckResponse × Log
  unfolding check_body
  check c = let (error, trace) = check_body c [] in (respond error, trace)
