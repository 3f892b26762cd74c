-- ===== src/Check/Loop.antt =====
-- check.go: the loop of a check in time, and how long its runs take. A check is run in a goroutine of its own,
-- so the loop does not wait for it. Times are nanoseconds; a timer may fire late, never early.
pub mod Spacing
pub mod Progress
use health_go.Base.{
  Bool, true, false, Option, none, some, List, [], ◌∷◌, ℕ, suc, ◌+◌, ltb, eqb, if◌then◌else◌,
}
use health_go.Base.Int.{ℤ, pos_part}
use health_go.Check.{CheckResponse, Outcome, response, expired, jitter}

-- what the function of the check does: it responds after some time, or hangs
pub data Behaviour : Type 0 where
  responds : ℕ → CheckResponse → Behaviour
  hangs : Behaviour

-- one run: when it started, when it had its outcome, and the outcome
pub record Run : Type 0 where
  pub started : ℕ
  pub ended : ℕ
  pub outcome : Outcome

abbrev at_deadline : ℕ → ℕ → Run
at_deadline started timeout = record {
  started = started;
  ended = started + timeout;
  outcome = expired;
}

-- the `select` of a run; when both are ready at once it sees either, which `late` decides
unfoldable pub run_once : ℕ → ℕ → Bool → Behaviour → Run
run_once started timeout late hangs = at_deadline started timeout
run_once started timeout late (responds after res) =
    let answered : Run = record {
      started = started;
      ended = started + after;
      outcome = response res;
    } in
    if ltb after timeout
    then answered
    else if eqb after timeout
    then if late then at_deadline started timeout else answered
    else at_deadline started timeout

-- what the `select` of the loop sees: that the timer fired, with its delay and what the run that it begins
-- will do, or that the channel is closed
pub data Wakeup : Type 0 where
  due : ℕ → Bool → Behaviour → Wakeup
  closed : Wakeup

-- the loop from the second run on, with the time of the next one and the runs so far, the latest first
unfoldable pub loop : ℕ → ℕ → ℕ → List Wakeup → List Run → List Run
unfolding run_once
loop interval timeout next [] runs = runs
loop interval timeout next (closed ∷ ws) runs = runs
loop interval timeout next (due delay late b ∷ ws) runs =
    let now = next + delay in
    loop interval timeout (now + interval) ws (run_once now timeout late b ∷ runs)

-- `runCheckWithChan`, begun at a time, with the random number of the jitter
unfoldable pub run_check_with_chan : ℤ → ℤ → ℕ → ℕ → Bool → Behaviour → List Wakeup → List Run
unfolding loop run_once
run_check_with_chan interval timeout random begin late b ws =
    loop (pos_part interval) (pos_part timeout) (begin + jitter random interval) ws
      (run_once begin (pos_part timeout) late b ∷ [])

-- the runs that have no outcome yet
unfoldable pub in_flight : ℕ → List Run → ℕ
in_flight now [] = 0
in_flight now (r ∷ rs) = let rest = in_flight now rs in if ltb now r.ended then suc rest else rest
