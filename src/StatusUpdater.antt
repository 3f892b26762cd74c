-- ===== src/StatusUpdater.antt =====
-- status.go: the status of one check, with its thresholds. The tracker and the sender are shared by
-- all checks: they stand, with the started action jobs, in a `World`, which an operation takes and
-- returns. One operation reads the clock at one instant and draws at most one UUID; both are
-- its `Env`. `tracked` is `eventTracker != nil`.
pub mod History
pub mod Notices
pub mod Alerts
pub mod Tracking
pub mod Steps
pub mod Incident
pub mod Coherence
pub mod Persistence
use health_go.Base.{
  String, Bool, true, false, not, ◌&&◌, ◌||◌, Option, none, some, List, [], ◌∷◌, ◌++◌, ◌==◌,
  if◌then◌else◌, get_or,
}
use health_go.Base.Int.{ℤ, pos, inc, leb_ℤ}
use health_go.Base.Text.{◌<>◌}
use health_go.Types.{
  Status, passing, warning, critical, timeout, initializing, unknown, status_text, eq_status, Error,
  Time, CheckNotification, CheckState,
}
use health_go.Events.{EventTracker, Uuid, get_or_create_event_id, get_next_sequence, clear_sequence}
use health_go.Notifications.{Notifications, send}
use health_go.Actions
use health_go.Actions.{ActionRunner, Job, event_tags, success, failure, warn, time_out}

pub record CheckStatus : Type 0 where
  pub status : Status
  pub error : Error

-- `CheckStatus.Update`
abbrev pub update_status : Status → Error → CheckStatus → CheckStatus
update_status status error check = record { status = status; error = error }

pub record StatusUpdater : Type 0 where
  pub check : CheckStatus
  pub actions : ActionRunner
  pub successes : ℤ
  pub failures : ℤ
  pub successes_before_passing : ℤ
  pub failures_before_warning : ℤ
  pub failures_before_critical : ℤ
  pub initialized : Bool
  pub notifiers : List String
  pub tracked : Bool

pub record World : Type 0 where
  pub tracker : EventTracker
  pub notifications : Notifications
  pub jobs : List Job

pub record Env : Type 0 where
  pub now : Time
  pub uuid : Uuid

unfoldable pub new_status_updater_internal :
    ℤ → ℤ → ℤ → ActionRunner → List String → Bool → StatusUpdater
new_status_updater_internal successes_before_passing failures_before_warning
      failures_before_critical action_runner notifiers tracked =
    record {
      check = record { status = critical; error = some (status_text initializing) };
      actions = action_runner;
      successes = pos 0;
      failures = pos 0;
      successes_before_passing = successes_before_passing;
      failures_before_warning = failures_before_warning;
      failures_before_critical = failures_before_critical;
      initialized = false;
      notifiers = notifiers;
      tracked = tracked;
    }

-- the event ID of a report, "" without a tracker
unfoldable pub event_id_of : Env → Status → StatusUpdater → World → String × World
event_id_of env status s w =
    let (event_id, t) = get_or_create_event_id env.uuid s.actions.check_name status w.tracker in
    if s.tracked then (event_id, record w { tracker = t }) else ("", w)

-- the next sequence number of an event, 0 without a tracker
unfoldable pub next_sequence : String → StatusUpdater → World → ℤ × World
next_sequence event_id s w =
    let (sequence, t) = get_next_sequence event_id w.tracker in
    if s.tracked then (sequence, record w { tracker = t }) else (pos 0, w)

unfoldable pub status_notification :
    String → List String → Status → String → String → ℤ → List String → CheckNotification
status_notification name notifiers status message event_id sequence extra_tags = record {
  name = name;
  message = message;
  attachment = [];
  tags =
      ("status:" <> status_text status) ∷ extra_tags
      ++ (if not (event_id == "") then event_tags event_id sequence else []);
  notifiers = notifiers;
  event_id = event_id;
  sequence = sequence;
}

unfoldable pub send_notification :
    Env → Status → String → String → List String → StatusUpdater → World → World
unfolding next_sequence status_notification
send_notification env status message event_id extra_tags s w =
    let (sequence, w') = next_sequence event_id s w in
    record w' {
      notifications =
          send env.now
            (status_notification s.actions.check_name s.notifiers status message event_id sequence
              extra_tags)
            w'.notifications;
    }

-- a fresh check announces itself under an event of its own
unfoldable pub new_status_updater :
    Env → ℤ → ℤ → ℤ → ActionRunner → List String → Bool → World → StatusUpdater × World
unfolding new_status_updater_internal event_id_of send_notification
new_status_updater env successes_before_passing failures_before_warning failures_before_critical
      action_runner notifiers tracked w =
    let s =
      new_status_updater_internal successes_before_passing failures_before_warning
        failures_before_critical action_runner notifiers tracked in
    let (event_id, w') = event_id_of env critical s w in
    (s, send_notification env initializing (status_text initializing) event_id [] s w')

-- "Status: critical, Error: ..."
unfoldable pub status_message : Status → Error → String
status_message status none = "Status: " <> status_text status
status_message status (some e) = ("Status: " <> status_text status) <> ", Error: " <> e

-- the handler of the actions that a status calls
unfoldable pub act :
    Status
    → Time
    → String
    → String
    → ActionRunner
    → EventTracker
    → ActionRunner × EventTracker × Option Job
act passing = success
act warning = warn
act critical = failure
act timeout = time_out
act _ = λ now message event_id r t. (r, t, none)

unfoldable pub spawn : Option Job → List Job → List Job
spawn none jobs = jobs
spawn (some job) jobs = jobs ++ job ∷ []

unfoldable pub run_actions :
    Env → Status → String → String → StatusUpdater → World → StatusUpdater × World
unfolding act spawn
run_actions env status message event_id s w =
    let (r, t, job) = act status env.now message event_id s.actions w.tracker in
    (record s { actions = r }, record w { tracker = t; jobs = spawn job w.jobs })

-- `if (oldStatus != status || firstResult) && !disableNotification`, with the updater as it was before
unfoldable pub notify_change : Env → Status → Bool → String → String → StatusUpdater → World → World
unfolding send_notification
notify_change env status disable_notification message event_id s w =
    if (not (eq_status s.check.status status) || not s.initialized) && not disable_notification
    then send_notification env status message event_id [] s w
    else w

-- the branch of a result that has reached its threshold: the event ID, the new status, the
-- notification if the status changed or this is the first result, and the actions
unfoldable pub cross :
    Env → Status → Error → Bool → StatusUpdater → World → String × StatusUpdater × World
unfolding event_id_of notify_change status_message run_actions
cross env status err disable_notification s w =
    let message = status_message status err in
    let (event_id, w₁) = event_id_of env status s w in
    let w₂ = notify_change env status disable_notification message event_id s w₁ in
    let s₁ = record s { check = update_status status err s.check; initialized = true } in
    let (s₂, w₃) = run_actions env status message event_id s₁ w₂ in (event_id, s₂, w₃)

-- "the event ends once the resolution has been dispatched"
unfoldable pub release_event : String → StatusUpdater → World → World
release_event event_id s w =
    if not (event_id == "") && s.tracked
    then record w { tracker = clear_sequence event_id w.tracker }
    else w

unfoldable pub count_failure : StatusUpdater → StatusUpdater
count_failure s = record s { failures = inc s.failures; successes = pos 0 }

unfoldable pub count_success : StatusUpdater → StatusUpdater
count_success s = record s { successes = inc s.successes; failures = pos 0 }

-- a result that counts as a failure, against its threshold
unfoldable pub update_failing :
    ℤ → Env → Status → Error → Bool → StatusUpdater → World → StatusUpdater × World
unfolding count_failure cross
update_failing threshold env status err disable_notification s w =
    let s' = count_failure s in
    let (event_id, s'', w') = cross env status err disable_notification s' w in
    if leb_ℤ threshold s'.failures then (s'', w') else (s', w)

unfoldable pub update_passing : Env → Error → Bool → StatusUpdater → World → StatusUpdater × World
unfolding count_success cross release_event
update_passing env err disable_notification s w =
    let s' = count_success s in
    let (event_id, s'', w') = cross env passing err disable_notification s' w in
    if leb_ℤ s'.successes_before_passing s'.successes
    then (s'', release_event event_id s' w')
    else (s', w)

-- a status other than these four changes nothing
unfoldable pub update : Env → Status → Error → Bool → StatusUpdater → World → StatusUpdater × World
unfolding update_failing update_passing
update env timeout err disable_notification s w =
    update_failing s.failures_before_critical env timeout err disable_notification s w
update env passing err disable_notification s w = update_passing env err disable_notification s w
update env warning err disable_notification s w =
    update_failing s.failures_before_warning env warning err disable_notification s w
update env critical err disable_notification s w =
    update_failing s.failures_before_critical env critical err disable_notification s w
update env initializing err disable_notification s w = (s, w)
update env (unknown text) err disable_notification s w = (s, w)

unfoldable pub get_state : Time → StatusUpdater → CheckState
get_state now s = record {
  successes = s.successes;
  failures = s.failures;
  pending_event_id = "";
  status = s.check.status;
  error_msg = get_or s.check.error "";
  action_runner_state = some (Actions.get_state s.actions);
  updated_at = now;
}

-- the message of a saved state, where "" stands for no error
abbrev pub saved_error : String → Error
saved_error message = if not (message == "") then some message else none

-- the part of `RestoreState` that sets the fields
unfoldable pub restore_fields : CheckState → StatusUpdater → StatusUpdater
restore_fields state s = record s {
  successes = state.successes;
  failures = state.failures;
  initialized = true;
  check = update_status state.status (saved_error state.error_msg) s.check;
  actions = Actions.restore_state state.action_runner_state s.actions;
}

-- "An incident survived the restart": the notification with the tag restored:true
unfoldable pub announce_restored : Env → CheckState → StatusUpdater → World → World
unfolding event_id_of send_notification status_message
announce_restored env state s w =
    let (event_id, w') = event_id_of env state.status s w in
    send_notification env state.status (status_message state.status (saved_error state.error_msg))
      event_id ("restored:true" ∷ []) s w'

abbrev pub is_incident : Status → Bool
is_incident warning = true
is_incident critical = true
is_incident timeout = true
is_incident _ = false

unfoldable pub restore_state :
    Env → Option CheckState → StatusUpdater → World → StatusUpdater × World
unfolding restore_fields announce_restored
restore_state env none s w = (s, w)
restore_state env (some state) s w =
    let s' = restore_fields state s in
    (s', if is_incident state.status then announce_restored env state s' w else w)
