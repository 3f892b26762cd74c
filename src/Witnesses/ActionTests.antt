-- ===== src/Witnesses/ActionTests.antt =====
-- actions.go and notifications.go: the theorems at concrete inputs.
use health_go.Base.{true, false, none, some, List, [], ◌∷◌, ◌≡◌, refl, arith, ℕ}
use health_go.Base.Int.{pos}
use health_go.Types.{Status, critical, warning, passing, Action, CheckNotification}
use health_go.Notifications.{Notifications, new_notification_sender}
use health_go.Notifications.Delivery.{Sends}
use health_go.Actions.{ActionRunner}
use health_go.Actions.Cooldown.{Result, failure_starts, Spaced, failure_starts-Spaced}
use health_go.Actions.Incidents.{criticals, incident_starts_once, warning_unlocks_failure}
use health_go.Events.{new_event_tracker}

abbrev restart : Action
restart = record {
  command = "systemctl restart db";
  unlock_after_duration = pos 500;
  unlock_only_after_healthy = false;
  timeout = pos 0;
  send_command_output = false;
  notifiers = [];
  last_run = 1000;
  can_run = false;
}

abbrev page : Action
page = record restart { unlock_only_after_healthy = true }

abbrev runner_with : Action → ActionRunner
runner_with a = record {
  check_name = "db";
  success_action = none;
  warning_action = none;
  failure_action = some a;
  timeout_action = none;
  status = passing;
}

abbrev at : Status → ℕ → Result
at status now = record { status = status; now = now; message = "down"; event_id = "e1" }

abbrev results : List Result
results =
    at critical 1200 ∷ at critical 1600 ∷ at warning 1700 ∷ at critical 1800 ∷ at critical 2200 ∷ []

failure_starts-Spaced_example :
    Spaced 500 1000 (failure_starts results (runner_with restart) new_event_tracker)
failure_starts-Spaced_example =
    failure_starts-Spaced 500 (omega arith) (omega arith) results 1000 (runner_with restart)
      new_event_tracker (restart, refl, refl, refl, refl, refl, refl)

incident_starts_once_example :
    failure_starts
      (criticals ((5, "down", "e1") ∷ (6, "down", "e1") ∷ []))
      (runner_with page)
      new_event_tracker
    ≡ 5 ∷ []
incident_starts_once_example =
    incident_starts_once 5 "down" "e1" ((6, "down", "e1") ∷ []) (runner_with page) new_event_tracker
      page refl (refl, refl) refl

warning_unlocks_failure_example :
    failure_starts (at warning 1700 ∷ at critical 1800 ∷ []) (runner_with page) new_event_tracker
    ≡ 1800 ∷ []
warning_unlocks_failure_example =
    warning_unlocks_failure (at warning 1700) (at critical 1800) (runner_with page)
      new_event_tracker page refl refl refl refl (refl, refl)

abbrev note : CheckNotification
note = record {
  name = "db";
  message = "down";
  attachment = [];
  tags = [];
  notifiers = [];
  event_id = "e1";
  sequence = pos 1;
}

abbrev sender : Notifications
sender = new_notification_sender 2

abbrev sends : Sends
sends = (120, note) ∷ (150, note) ∷ []
