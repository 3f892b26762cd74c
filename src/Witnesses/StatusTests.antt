-- ===== src/Witnesses/StatusTests.antt =====
-- status.go: the updater's theorems at concrete inputs.
use health_go.Base.{true, false, none, some, List, [], ◌∷◌, ◌≡◌, refl, arith, if◌then◌else◌}
use health_go.Base.Int.{pos}
use health_go.Base.GoMap.{get}
use health_go.Types.{Status, critical, warning, passing, eq_status, initializing}
use health_go.Notifications.{new_notification_sender}
use health_go.Actions.{ActionRunner, new_action_runner}
use health_go.Events.Invariant.{IsValid}
use health_go.Events.Operations.{report}
use health_go.StatusUpdater.{StatusUpdater, World, Env, new_status_updater_internal}
use health_go.StatusUpdater.History.{Report, History, replay, Follows, replay-Follows, decided}
use health_go.StatusUpdater.Alerts.{alerts, head?, NoRepeat, alerts-follow_status}
use health_go.StatusUpdater.Notices.{Tells, notices, announced}
use health_go.StatusUpdater.Incident.{Step, own, other, steps, Pending, steps-Pending}
use health_go.Witnesses.Data.{uuid_b, uuid_b-IsUuid, id_a, broken, broken-IsValid, broken-held}

abbrev runner : ActionRunner
runner = new_action_runner "db" none none none none

-- three successes to pass, one warning, two failures
abbrev fresh : StatusUpdater
fresh = new_status_updater_internal (pos 3) (pos 1) (pos 2) runner [] true

abbrev world : World
world = record { tracker = broken; notifications = new_notification_sender 8; jobs = [] }

abbrev env : Env
env = record { now = 1000; uuid = uuid_b }

abbrev result : Status → Report
result status = record { env = env; status = status; error = none; quiet = false }

-- the latest first: two failures, a warning and one success before them
abbrev history : History
history =
    (result critical, world)
    ∷ (result critical, world)
    ∷ (result warning, world)
    ∷ (result passing, world)
    ∷ []

replay-Follows_example : Follows 3 1 2 history (replay history fresh)
replay-Follows_example = replay-Follows 3 1 2 history runner [] true (omega arith)

alerts-follow_status_example :
    Tells runner.check_name
      (notices (announced env (pos 3) (pos 1) (pos 2) runner [] true world) history fresh)
      (alerts history fresh)
    × (head? (alerts history fresh)
        ≡ some
            (if decided 3 1 2 history then (replay history fresh).check.status else initializing))
    × NoRepeat (alerts history fresh)
alerts-follow_status_example =
    alerts-follow_status 3 1 2 runner [] true env world history (omega arith)
      (refl, (refl, (refl, (refl, tt))))

-- the database check is critical and flaps, with a failing cache in between
abbrev flapping : List Step
flapping =
    own (result passing)
    ∷ own (result passing)
    ∷ other (report uuid_b "cache" critical) (new_notification_sender 8) []
    ∷ own (result critical)
    ∷ own (result passing)
    ∷ []

failing_db : Pending "db" id_a 3 0 (fresh, world)
unfolding new_status_updater_internal new_action_runner
failing_db = record {
  named = refl;
  to_pass = refl;
  successes = refl;
  unhealthy = refl;
  valid = broken-IsValid;
  held = broken-held;
}

steps-Pending_example :
    (eq_status (steps flapping (fresh, world)).0.check.status passing ≡ false)
    × (get "db" (steps flapping (fresh, world)).1.tracker.event_ids ≡ some id_a)
    × IsValid (steps flapping (fresh, world)).1.tracker
steps-Pending_example =
    steps-Pending "db" id_a 3 (omega arith) flapping 0
      (
        uuid_b-IsUuid,
        (uuid_b-IsUuid, ((uuid_b-IsUuid, refl), (uuid_b-IsUuid, (uuid_b-IsUuid, tt)))),
      )
      refl failing_db
