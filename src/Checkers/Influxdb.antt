-- ===== src/Checkers/Influxdb.antt =====
-- checks/influxdb/check.go: the health API must report "pass".
pub mod Kept
use health_go.Base.{String, [], ◌∷◌, ◌==◌}
use health_go.Check.{CheckResponse}
use health_go.Checkers.{Reply, Trace, Body, succeed, call, perform, finally, demand, respond}

pub record Config : Type 0 where
  pub url : String

-- `health` returns the status
pub data Call : Type 0 where
  new_client : String → Call
  health close_client : Call

abbrev pub Log : Type 0
Log = Trace Call String

module _ (answer : Log → Call → Reply String) where
  unfoldable pub check_body : Config → Body Call String
  unfolding call perform finally demand succeed
  check_body c = perform answer (new_client c.url) (
      finally answer close_client (
        call answer health "InfluxDB health check failed" (λ status.
          demand (status == "pass") "InfluxDB health check failed, didn't get PASS status"
            succeed)))

  unfoldable pub check : Config → CheckResponse × Log
  unfolding check_body
  check c = let (error, trace) = check_body c [] in (respond error, trace)
