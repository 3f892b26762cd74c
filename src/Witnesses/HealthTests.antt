-- ===== src/Witnesses/HealthTests.antt =====
-- health.go and check.go: the theorems at concrete inputs.
use mathlib.Core.List.Perm
use health_go.Base.{String, true, false, none, some, List, [], ◌∷◌, ◌≡◌, refl, arith, Option}
use health_go.Base.Int.{pos}
use health_go.Base.GoMap.{GoMap}
use health_go.Types.{critical, passing, CheckState}
use health_go.Notifications.{new_notification_sender}
use health_go.Events.{new_event_tracker}
use health_go.StatusUpdater.{CheckStatus}
use health_go.Check.{CheckRuntime, Loops, CheckResponse}
use health_go.Check.Pausing.{
  Command, suspend, resume, obey, Tidy, stopped, obey-Tidy, second_start-leaks,
}
use health_go.Health.{Health, severity, overall, http_code}
use health_go.Health.Severity.{overall-perm}

abbrev up : CheckStatus
up = record { status = passing; error = none }

abbrev down : CheckStatus
down = record { status = critical; error = some "refused" }

abbrev statuses : GoMap CheckStatus
statuses = ("api", up) ∷ ("db", down) ∷ []

abbrev swapped : GoMap CheckStatus
swapped = ("db", down) ∷ ("api", up) ∷ []

overall-perm_example :
    (severity (overall statuses).0 ≡ severity (overall swapped).0)
    × (http_code (overall statuses).0 ≡ http_code (overall swapped).0)
overall-perm_example = overall-perm statuses swapped (Perm.swap _ _ _)

abbrev empty_health : Health
empty_health = record {
  checks = [];
  world = record {
    tracker = new_event_tracker;
    notifications = new_notification_sender 512;
    jobs = [];
  };
  loops = record { next_chan = 0; running = [] };
  system_info_enabled = false;
  max_concurrent = pos 4;
}

abbrev nothing : String → Option CheckState
nothing name = none

abbrev broken : CheckResponse
broken = record { error = some "refused"; is_warning = false; no_notification = false }

abbrev running : CheckRuntime
running = record { paused = false; paused_chan = 0 }

abbrev one_loop : Loops
one_loop = record { next_chan = 1; running = 0 ∷ [] }

abbrev commands : List Command
commands = suspend ∷ resume ∷ suspend ∷ suspend ∷ resume ∷ []

obey-Tidy_example :
    Tidy (obey commands (some running, one_loop)).0 (obey commands (some running, one_loop)).1
obey-Tidy_example = obey-Tidy commands (some running) one_loop (omega arith, refl) refl

second_start-leaks_example :
    let (r', loops') = obey (resume ∷ suspend ∷ []) (some running, one_loop) in
    (stopped r' ≡ true) × (loops'.running ≡ 0 ∷ [])
second_start-leaks_example = second_start-leaks running one_loop (omega arith, refl) refl
