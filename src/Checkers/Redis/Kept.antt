-- ===== src/Checkers/Redis/Kept.antt =====
-- checks/redis/check.go: the DSN, what the check leaves behind and what it shows by its answer.
use health_go.Base.{String, Bool, true, ◌||◌, Option, ◌==◌, ◌≡◌, refl, arith}
use health_go.Base.Text.{has_prefix}
use health_go.Base.Affixes.{strip_prefix-append}
use health_go.Checkers.{Reply, Trace, value, answered}
use health_go.Checkers.Resources.{
  Role, neutral, creates, closes, Releases, succeed-Releases, demand-Releases, call-Releases,
  created-Releases,
}
use health_go.Checkers.Failures.{
  Honest, succeed-Honest, perform-Honest, finally-Honest, tested-Honest,
}
use health_go.Checkers.Verdicts.{IsSound, body-IsSound}
use health_go.Checkers.Redis.{
  Config, Call, new_client, ping, close_client, check_body, check, redis_dsn,
}

-- The DSN that is parsed always has one of the two schemas.
pub redis_dsn-has_schema :
    (dsn : String)
    → (has_prefix (redis_dsn dsn) "redis://" || has_prefix (redis_dsn dsn) "rediss://") ≡ true
unfolding redis_dsn has_prefix
redis_dsn-has_schema dsn = ground (arith, strip_prefix-append "redis://" dsn)

module _ {O : Type 0} where
  abbrev pub role : Call O → Role
  role (new_client options) = creates 0
  role ping = neutral
  role close_client = closes 0

  abbrev pub fine : Call O → Reply String → Bool
  fine ping (value pong) = pong == "PONG"
  fine ping r = answered r
  fine c r = true

  module _ (answer : Trace (Call O) String → Call O → Reply String) (quote : String → String)
      (parse_url : String → Option O) (options : Option O) where
    body-Releases : Releases role (check_body answer parse_url quote options)
    unfolding check_body
    body-Releases = created-Releases role answer 0 _ _ refl refl (
        call-Releases role answer _ _ refl
          (λ pong. demand-Releases role _ _ (succeed-Releases role)))

    body-Honest : Honest fine (check_body answer parse_url quote options)
    unfolding check_body
    body-Honest =
        perform-Honest fine answer _ (λ r. refl)
          (finally-Honest fine answer _ (λ r. refl)
            (tested-Honest fine answer _ _ (λ pong. pong == "PONG") _ (λ e. refl) (λ v. refl)
              (succeed-Honest fine)))

  -- The check of redis closes its client. It reports no error just when the ping was answered by PONG.
  pub redis_check-IsSound :
      (answer : Trace (Call O) String → Call O → Reply String) (parse_url : String → Option O)
      (quote : String → String) (c : Config)
      → IsSound role fine (check answer parse_url quote c)
  unfolding check
  redis_check-IsSound answer parse_url quote c =
      body-IsSound role fine _ (body-Releases answer quote parse_url _)
        (body-Honest answer quote parse_url _)
