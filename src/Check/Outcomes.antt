-- ===== src/Check/Outcomes.antt =====
-- check.go: the status that an outcome is reported as.
use health_go.Base.{Bool, true, false, none, ℕ, ◌<◌, ◌≡◌, ◌⊎◌, arith, is_some}
use health_go.Base.Int.{pos}
use health_go.Types.{passing, warning, critical}
use health_go.Check.{CheckResponse, response_status, jitter}

-- A response is passing exactly when it has no error; with SkipOnErr it is never critical, and an error that
-- the check itself calls a warning is a warning.
pub response_status_cases :
    (skip_on_err : Bool) (res : CheckResponse)
    → ((res.error ≡ none) × (response_status skip_on_err res ≡ passing))
      ⊎ ((is_some res.error ≡ true)
          × (((skip_on_err ≡ false)
                × (res.is_warning ≡ false)
                × (response_status skip_on_err res ≡ critical))
              ⊎ (((skip_on_err ≡ true) ⊎ (res.is_warning ≡ true))
                  × (response_status skip_on_err res ≡ warning))))
unfolding response_status
response_status_cases skip_on_err res = ground arith

-- The second run waits for less than one interval.
pub jitter-lt : (random n : ℕ) → 0 < n → jitter random (pos n) < n
unfolding jitter
jitter-lt random n some_time = ground arith
