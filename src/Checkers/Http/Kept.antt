-- ===== src/Checkers/Http/Kept.antt =====
-- checks/http/check.go: what the check leaves behind and what it shows by its answer.
use health_go.Base.{Bool, true, ℕ, ltb, refl}
use health_go.Checkers.{Reply, value, answered}
use health_go.Checkers.Resources.{
  Role, neutral, opens, closes, Releases, succeed-Releases, demand-Releases, call-Releases,
  held-Releases,
}
use health_go.Checkers.Failures.{Honest, succeed-Honest, call-Honest, held_tested-Honest}
use health_go.Checkers.Verdicts.{IsSound, body-IsSound}
use health_go.Checkers.Http.{Config, Call, new_request, send, close_body, Log, check_body, check}

abbrev pub role : Call → Role
role (new_request url) = neutral
role (send timeout) = opens 0
role close_body = closes 0

abbrev pub fine : Call → Reply ℕ → Bool
fine (send timeout) (value status_code) = ltb status_code 500
fine close_body r = true
fine c r = answered r

module _ (answer : Log → Call → Reply ℕ) (c : Config) where
  body-Releases : Releases role (check_body answer c)
  unfolding check_body
  body-Releases = call-Releases role answer _ _ refl (λ _.
      held-Releases role answer 0 _ _ _ refl refl
        (λ _. demand-Releases role _ _ (succeed-Releases role)))

  body-Honest : Honest fine (check_body answer c)
  unfolding check_body
  body-Honest =
      call-Honest fine answer _ _ (λ r. refl)
        (λ _.
          held_tested-Honest fine answer _ _ _ (λ status_code. ltb status_code 500) _ (λ e. refl)
            (λ v. refl) (λ r. refl) (succeed-Honest fine))

-- The check closes the body of every response that it gets. It reports no error just when the request was
-- made and answered with a status code below 500.
pub http_check-IsSound :
    (answer : Log → Call → Reply ℕ) (c : Config) → IsSound role fine (check answer c)
unfolding check
http_check-IsSound answer c =
    body-IsSound role fine _ (body-Releases answer _) (body-Honest answer _)
