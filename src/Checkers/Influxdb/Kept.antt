-- ===== src/Checkers/Influxdb/Kept.antt =====
-- checks/influxdb/check.go: what the check leaves behind and what it shows by its answer.
use health_go.Base.{String, Bool, true, ◌==◌, refl}
use health_go.Checkers.{Reply, value, answered}
use health_go.Checkers.Resources.{
  Role, neutral, creates, closes, succeed-Releases, demand-Releases, call-Releases,
  created-Releases,
}
use health_go.Checkers.Failures.{succeed-Honest, perform-Honest, finally-Honest, tested-Honest}
use health_go.Checkers.Verdicts.{IsSound, body-IsSound}
use health_go.Checkers.Influxdb.{
  Config, Call, new_client, health, close_client, Log, check_body, check,
}

abbrev pub role : Call → Role
role (new_client url) = creates 0
role health = neutral
role close_client = closes 0

abbrev pub fine : Call → Reply String → Bool
fine health (value status) = status == "pass"
fine health r = answered r
fine c r = true

-- The check of influxdb closes its client. It reports no error just when the health API answered "pass".
pub influxdb_check-IsSound :
    (answer : Log → Call → Reply String) (c : Config) → IsSound role fine (check answer c)
unfolding check check_body
influxdb_check-IsSound answer c =
    body-IsSound role fine (check_body answer c)
      (created-Releases role answer 0 _ _ refl refl (
        call-Releases role answer _ _ refl
          (λ status. demand-Releases role _ _ (succeed-Releases role))))
      (perform-Honest fine answer _ (λ r. refl)
        (finally-Honest fine answer _ (λ r. refl)
          (tested-Honest fine answer _ _ (λ status. status == "pass") _ (λ e. refl) (λ v. refl)
            (succeed-Honest fine))))
