-- ===== src/Checkers/Mongo/Kept.antt =====
-- checks/mongo/check.go: what the check leaves behind and what it shows by its answer.
use health_go.Base.{Bool, refl}
use health_go.Checkers.{Reply, answered}
use health_go.Checkers.Resources.{
  Role, neutral, opens, closes, succeed-Releases, call-Releases, opened-Releases,
}
use health_go.Checkers.Failures.{succeed-Honest, call-Honest, deferred-Honest}
use health_go.Checkers.Verdicts.{IsSound, body-IsSound}
use health_go.Checkers.Mongo.{
  Config, Call, connect, ping, disconnect, Log, check_body, check, with_timeouts,
}

abbrev pub role : Call → Role
role (connect dsn timeout) = opens 0
role (disconnect timeout) = closes 0
role (ping timeout) = neutral

abbrev pub fine : Call → Reply Unit → Bool
fine c r = answered r

-- The check of mongo disconnects the client that it connected. It reports no error just when no call
-- failed, the disconnecting included.
pub mongo_check-IsSound :
    (answer : Log → Call → Reply Unit) (c : Config) → IsSound role fine (check answer c)
unfolding check check_body
mongo_check-IsSound answer c =
    body-IsSound role fine (check_body answer (with_timeouts c))
      (opened-Releases role answer 0 _ _ _ _ refl refl
        (λ _. call-Releases role answer _ _ refl (λ _. succeed-Releases role)))
      (call-Honest fine answer _ _ (λ r. refl)
        (λ _.
          deferred-Honest fine answer _ _ (λ r. refl)
            (call-Honest fine answer _ _ (λ r. refl) (λ _. succeed-Honest fine))))
