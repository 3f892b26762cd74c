-- ===== src/Checkers/Grpc.antt =====
-- checks/grpc/check.go: the health service of a gRPC server must report SERVING.
pub mod Kept
use health_go.Base.{String, [], ◌∷◌, ◌==◌}
use health_go.Base.Text.{◌<>◌}
use health_go.Base.Int.{ℤ, pos, cmp_or}
use health_go.Check.{CheckResponse}
use health_go.Checkers.{Reply, Trace, Body, succeed, call, finally, demand, respond}

-- `O` is the type of the dial options of grpc
pub record Config (O : Type 0) : Type 0 where
  pub target : String
  pub service : String
  pub dial_options : O
  pub check_timeout : ℤ

abbrev pub default_check_timeout : ℤ
default_check_timeout = pos 5000000000

-- `check_health` returns the name of the status
pub data Call (O : Type 0) : Type 0 where
  new_client : String → O → Call O
  check_health : String → ℤ → Call O
  close_connection : Call O

-- `quote` is `%q`
module _ {O : Type 0} (answer : Trace (Call O) String → Call O → Reply String)
    (quote : String → String) where
  unfoldable pub check_body : Config O → Body (Call O) String
  unfolding call finally demand succeed
  check_body c =
      call answer (new_client c.target c.dial_options) "gRPC health check failed on connect" (λ _.
        finally answer close_connection (
          call answer (check_health c.service c.check_timeout)
            "gRPC health check failed on check call"
            (λ status.
              demand (status == "SERVING")
                ("gRPC service reported as non-serving: " <> quote status) succeed)))

  unfoldable pub check : Config O → CheckResponse × Trace (Call O) String
  unfolding check_body
  check c =
      let (error, trace) =
        check_body (record c { check_timeout = cmp_or c.check_timeout default_check_timeout }) [] in
      (respond error, trace)
