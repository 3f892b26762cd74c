-- ===== src/StatusUpdater/Persistence.antt =====
-- status.go, GetState and RestoreState: what survives a restart, and what is notified after one.
use health_go.Base.{
  Bool, true, false, none, some, ◌≡◌, ◌≢◌, refl, ap, arith, eq_iff, ◌==◌, get_or, Bool-cases, inl,
  inr,
}
use health_go.Types.{Status, passing, eq_status, Error, Time, CheckState}
use health_go.Actions
use health_go.Actions.Persistence
use health_go.Notifications.{new_notification_sender}
use health_go.StatusUpdater.{
  StatusUpdater, World, Env, get_state, restore_fields, saved_error, update,
}
use health_go.StatusUpdater.Notices.{alerted}

pub saved-error : (e : Error) → e ≢ some "" → saved_error (get_or e "") ≡ e
saved-error none h = refl
saved-error (some m) h = elim (Bool-cases (m == "")) [
  | inl empty ↦ absurd (h (ap some ((eq_iff m "").0 empty)))
  | inr named ↦ rw named
]

-- Restoring the saved state of an updater gives the saved updater, initialized, if its error is not an
-- empty message. The target is the same configuration after it was restored from any other state.
pub updater_round_trip :
    (now : Time) (other : CheckState) (s : StatusUpdater)
    → s.check.error ≢ some ""
    → restore_fields (get_state now s) (restore_fields other s) ≡ record s { initialized = true }
unfolding restore_fields get_state
updater_round_trip now other s named = λ i. record {
  check = record { status = s.check.status; error = saved-error s.check.error named i };
  actions = Actions.Persistence.runner_round_trip other.action_runner_state s.actions i;
  successes = s.successes;
  failures = s.failures;
  successes_before_passing = s.successes_before_passing;
  failures_before_warning = s.failures_before_warning;
  failures_before_critical = s.failures_before_critical;
  initialized = true;
  notifiers = s.notifiers;
  tracked = s.tracked;
}

-- A restored updater sends no notification for a result with the saved status, whether it reaches its
-- threshold or not: the incident was notified before the restart.
pub restored-not_alerted :
    (env : Env) (state : CheckState) (status : Status) (error : Error) (quiet : Bool)
    (s : StatusUpdater) (w : World)
    → eq_status state.status status ≡ true
    → alerted env status error quiet (restore_fields state s) w ≡ false
unfolding alerted update new_notification_sender restore_fields
restored-not_alerted env state passing error quiet s w same = ground arith
restored-not_alerted env state _ error quiet s w same = ground arith
