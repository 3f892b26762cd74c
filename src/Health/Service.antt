-- ===== src/Health/Service.antt =====
-- health.go and check.go: a container at work. A service is a container whose checks are registered,
-- run, paused and started, and whose notifications are received and switched off and on. An event
-- of it is one call that holds the locks of what it changes, in some order.
pub mod Created
pub mod Surviving
pub mod Serving
pub mod Options
pub mod Runs
pub mod Unhealthy
pub mod Answer
use health_go.Base.Optional.{◌>>=◌}
use health_go.Base.{false, String, Option, none, some, List, [], ◌∷◌, Bool, ℕ, ◌≡◌}
use health_go.Base.Int.{ℤ, pos}
use health_go.Base.GoMap.{GoMap, get, put}
use health_go.Types.{Status, Time, CheckState}
use health_go.Events.{new_event_tracker, set_maintenance_check_name}
use health_go.Notifications.{Notifications, disable, enable, enabled, new_notification_sender}
use health_go.StatusUpdater.{StatusUpdater, World, Env, CheckStatus}
use health_go.Check
use health_go.Check.{CheckConfig, CheckRuntime, Loops, Outcome, check, start, pause}
use health_go.Health.{Health, register, overall, http_code}

abbrev set_notifications : Notifications → Health → Health
set_notifications n h = record h { world = record h.world { notifications = n } }

-- `NotificationsDisable`
abbrev pub notifications_disable : Time → ℤ → Health → Health
notifications_disable now suppress_time h =
    set_notifications (disable now suppress_time h.world.notifications) h

-- `NotificationsEnable`
abbrev pub notifications_enable : Health → Health
notifications_enable h = set_notifications (enable h.world.notifications) h

-- `NotificationsEnabled`
abbrev pub notifications_enabled : Health → Bool
notifications_enabled h = enabled h.world.notifications

-- the check of a configuration runs, with the updater that it points to
unfoldable pub run_config : Env → Outcome → CheckConfig → Health → Health
run_config env outcome c h = elim c.status [
  | none ↦ h
  | some u ↦
      let (u', w) = check env c.has_check c.skip_on_err outcome u h.world in
      record h { checks = put c.name (record c { status = some u' }) h.checks; world = w }
]

-- the loop of a configuration is paused or started
unfoldable pub set_loop : CheckConfig → Option CheckRuntime × Loops → Health → Health
set_loop c (runtime, loops) h = record h {
  checks = put c.name (record c { runtime = runtime }) h.checks;
  loops = loops;
}

abbrev pub pause_config : CheckConfig → Health → Health
pause_config c h = set_loop c (pause c.runtime h.loops) h

abbrev pub start_config : CheckConfig → Health → Health
start_config c h = set_loop c (start c.runtime h.loops) h

unfoldable pub with_config : (CheckConfig → Health → Health) → String → Health → Health
with_config f name h = elim (get name h.checks) [ none ↦ h | some c ↦ f c h ]

pub data Event : Type 0 where
  registered : Env → Option CheckState → CheckConfig → Event
  ran : Env → String → Outcome → Event
  paused started : String → Event
  received : Notifications → Event
  disabled : Time → ℤ → Event
  enabled_again : Event

-- `registered` comes with the state that the persister has for the check, `received` with the sender
-- after the receiver, or another sender, has used it
unfoldable pub serve_one : Event → Health → Health
unfolding run_config set_loop
serve_one (registered env saved c) h = (register env (λ name. saved) c h).0
serve_one (ran env name outcome) h = with_config (run_config env outcome) name h
serve_one (paused name) h = with_config pause_config name h
serve_one (started name) h = with_config start_config name h
serve_one (received n) h = set_notifications n h
serve_one (disabled now suppress_time) h = notifications_disable now suppress_time h
serve_one enabled_again h = notifications_enable h

unfoldable pub serve : List Event → Health → Health
unfolding serve_one
serve [] h = h
serve (e ∷ es) h = serve es (serve_one e h)

-- `c.Status.check.Get()` of every check; it panics for a check that has no updater
unfoldable pub check_statuses : GoMap CheckConfig → Option (List (String × CheckStatus))
check_statuses [] = some []
check_statuses ((key, c) ∷ cs) = do
  u ← c.status
  rest ← check_statuses cs
  some ((c.name, u.check) ∷ rest)

-- `Status`: the overall status and the failures, or a panic
unfoldable pub status : Health → Option (Status × GoMap String)
unfolding check_statuses
status h = do statuses ← check_statuses h.checks; some (overall statuses)
