-- ===== src/Actions/Incidents.antt =====
-- actions.go, UnlockOnlyAfterHealthy: one run of the command for each incident.
use health_go.Base.{String, true, false, none, some, List, [], ◌∷◌, ◌≡◌, refl, ◌==◌, arith, is_some}
use health_go.Types.{warning, critical, eq_status, Time, Action}
use health_go.Events.{EventTracker}
use health_go.Actions.{ActionRunner, failure, warn}
use health_go.Actions.Cooldown.{Result, respond, failure_starts}

-- the failure action is one that is unlocked by a change of status, and has a command
abbrev pub OncePerIncident : Action → Type 0
OncePerIncident a = (a.unlock_only_after_healthy ≡ true) × ((a.command == "") ≡ false)

-- the runner is in an incident, and its action has run
abbrev Spent : ActionRunner → Type 0
Spent r =
    (a : Action) × (r.failure_action ≡ some a)
    × OncePerIncident a
    × (a.can_run ≡ false)
    × (r.status ≡ critical)

module _ (now : Time) (message event_id : String) (r : ActionRunner) (t : EventTracker) where
  failure-Spent :
      Spent r
      → (is_some (failure now message event_id r t).2 ≡ false)
        × Spent (failure now message event_id r t).0
  unfolding failure
  failure-Spent (a, here, once, idle, same) =
      (ground arith, (a, ground arith, once, idle, ground arith))

  failure-first :
      (a : Action)
      → r.failure_action ≡ some a
      → OncePerIncident a
      → eq_status r.status critical ≡ false
      → (is_some (failure now message event_id r t).2 ≡ true)
        × Spent (failure now message event_id r t).0
  unfolding failure
  failure-first a here once outside = (
    ground arith,
    (record a { can_run = false; last_run = now }, ground arith, once, refl, ground arith),
  )

-- a critical result, with its time, message and event ID
abbrev pub critical_at : Time × String × String → Result
critical_at (now, message, event_id) = record {
  status = critical;
  now = now;
  message = message;
  event_id = event_id;
}

abbrev pub criticals : List (Time × String × String) → List Result
criticals [] = []
criticals (x ∷ xs) = critical_at x ∷ criticals xs

Spent-starts :
    (xs : List (Time × String × String)) (r : ActionRunner) (t : EventTracker)
    → Spent r
    → failure_starts (criticals xs) r t ≡ []
unfolding failure_starts respond
Spent-starts [] r t spent = refl
Spent-starts ((now, message, event_id) ∷ xs) r t spent =
    let (r', t', job) = failure now message event_id r t in
    let (still, next) = failure-Spent now message event_id r t spent in
    rw still (Spent-starts xs r' t' next)

-- For a failure action with a command and UnlockOnlyAfterHealthy, and a runner that is not in
-- critical, a sequence of critical results starts the command at the first one and at no later one,
-- however long it is.
pub incident_starts_once :
    (now : Time) (message event_id : String) (xs : List (Time × String × String)) (r : ActionRunner)
    (t : EventTracker) (a : Action)
    → r.failure_action ≡ some a
    → OncePerIncident a
    → eq_status r.status critical ≡ false
    → failure_starts (criticals ((now, message, event_id) ∷ xs)) r t ≡ now ∷ []
unfolding failure_starts respond
incident_starts_once now message event_id xs r t a here once outside =
    let (r', t', job) = failure now message event_id r t in
    let (starts, next) = failure-first now message event_id r t a here once outside in
    rw starts (rw (Spent-starts xs r' t' next))

-- For a failure action with a command and UnlockOnlyAfterHealthy, and without a warning action, a
-- warning and then a critical result start the command again, whatever the runner's state is: so also
-- between two critical results, though the check was never healthy in between.
pub warning_unlocks_failure :
    (w x : Result) (r : ActionRunner) (t : EventTracker) (a : Action)
    → w.status ≡ warning
    → x.status ≡ critical
    → r.failure_action ≡ some a
    → r.warning_action ≡ none
    → OncePerIncident a
    → failure_starts (w ∷ x ∷ []) r t ≡ x.now ∷ []
unfolding failure_starts respond warn failure
warning_unlocks_failure w x r t a w_warns x_fails here no_action once = ground arith
