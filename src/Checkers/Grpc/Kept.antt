-- ===== src/Checkers/Grpc/Kept.antt =====
-- checks/grpc/check.go: what the check leaves behind and what it shows by its answer.
use health_go.Base.{String, Bool, true, ◌==◌, refl}
use health_go.Checkers.{Reply, Trace, value, answered}
use health_go.Checkers.Resources.{
  Role, neutral, opens, closes, Releases, succeed-Releases, demand-Releases, call-Releases,
  held-Releases,
}
use health_go.Checkers.Failures.{Honest, succeed-Honest, call-Honest, finally-Honest, tested-Honest}
use health_go.Checkers.Verdicts.{IsSound, body-IsSound}
use health_go.Checkers.Grpc.{
  Config, Call, new_client, check_health, close_connection, check_body, check,
}

module _ {O : Type 0} where
  abbrev pub role : Call O → Role
  role (new_client target options) = opens 0
  role (check_health service timeout) = neutral
  role close_connection = closes 0

  abbrev pub fine : Call O → Reply String → Bool
  fine (check_health service timeout) (value status) = status == "SERVING"
  fine close_connection r = true
  fine c r = answered r

  module _ (answer : Trace (Call O) String → Call O → Reply String) (quote : String → String)
      (c : Config O) where
    body-Releases : Releases role (check_body answer quote c)
    unfolding check_body
    body-Releases = held-Releases role answer 0 _ _ _ refl refl (λ _.
        call-Releases role answer _ _ refl
          (λ status. demand-Releases role _ _ (succeed-Releases role)))

    body-Honest : Honest fine (check_body answer quote c)
    unfolding check_body
    body-Honest =
        call-Honest fine answer _ _ (λ r. refl)
          (λ _.
            finally-Honest fine answer _ (λ r. refl)
              (tested-Honest fine answer _ _ (λ status. status == "SERVING") _ (λ e. refl)
                (λ v. refl) (succeed-Honest fine)))

  -- The check of grpc closes its connection. It reports no error just when the connection was made
  -- and the server answered SERVING.
  pub grpc_check-IsSound :
      (answer : Trace (Call O) String → Call O → Reply String) (quote : String → String)
      (c : Config O)
      → IsSound role fine (check answer quote c)
  unfolding check
  grpc_check-IsSound answer quote c =
      body-IsSound role fine _ (body-Releases answer quote _) (body-Honest answer quote _)
