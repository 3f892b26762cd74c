-- ===== src/Checkers/Nats/Kept.antt =====
-- checks/nats/check.go: what the check leaves behind and what it shows by its answer.
use health_go.Base.{String, Bool, ◌∷◌, true, ◌==◌, refl}
use health_go.Base.Text.{◌<>◌}
use health_go.Checkers.{Reply, value, answered}
use health_go.Checkers.Resources.{
  Role, neutral, opens, closes, stack, Releases, succeed-Releases, demand-Releases, held-Releases,
}
use health_go.Checkers.Failures.{Honest, succeed-Honest, call-Honest, finally-Honest, demand-says}
use health_go.Checkers.Verdicts.{IsSound, body-IsSound}
use health_go.Checkers.Nats.{
  Config, Call, connect, get_status, close_connection, Log, check_status, check_body, check,
}

abbrev pub role : Call → Role
role (connect dsn) = opens 0
role get_status = neutral
role close_connection = closes 0

abbrev pub fine : Call → Reply String → Bool
fine get_status (value status) = status == "CONNECTED"
fine close_connection r = true
fine c r = answered r

module _ (answer : Log → Call → Reply String) (status : Log → String) where
  status-Releases : Releases role (check_status answer status)
  unfolding check_status stack
  status-Releases = record {
    kept = λ t.
        (demand-Releases role (status t == "CONNECTED") _ (succeed-Releases role)).kept
          ((get_status, value (status t)) ∷ t);
  }

  status-Honest : Honest fine (check_status answer status)
  unfolding check_status
  status-Honest = record {
    says = λ t.
        demand-says fine _ ("nats health check failed as connection status is " <> status t)
          get_status (value (status t)) t refl (succeed-Honest fine);
  }

  -- The check of nats closes the connection that it made. It reports no error just when the
  -- connection was made and its status is CONNECTED.
  pub nats_check-IsSound : (c : Config) → IsSound role fine (check answer status c)
  unfolding check check_body
  nats_check-IsSound c =
      body-IsSound role fine (check_body answer status c)
        (held-Releases role answer 0 _ _ _ refl refl (λ _. status-Releases))
        (call-Honest fine answer _ _ (λ r. refl)
          (λ _. finally-Honest fine answer _ (λ r. refl) status-Honest))
