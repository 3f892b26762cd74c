-- ===== src/Actions.antt =====
-- actions.go: the actions of a check, with their cooldowns. A handler decides whether the command
-- runs and starts it in a goroutine: it returns the new runner, the tracker after the sequence number
-- was reserved, and the started job. `finish` is the end of the goroutine.
pub mod Cooldown
pub mod Incidents
pub mod Persistence
use health_go.Base.{
  String, Bool, true, false, not, ◌&&◌, Option, none, some, List, [], ◌∷◌, ◌++◌, ℕ, ◌==◌,
  if◌then◌else◌, get_or,
}
use health_go.Base.Int.{ℤ, pos, ltb_ℤ, leb_ℤ, since}
use health_go.Base.Text.{◌<>◌, itoa}
use health_go.Types.{
  Status, passing, warning, critical, timeout, initializing, eq_status, Error, Time, Action,
  ActionState, ActionRunnerState, CheckNotification, default_action_timeout,
}
use health_go.Events.{EventTracker, get_next_sequence}
use health_go.Notifications.{Notifications, send}

pub record ActionRunner : Type 0 where
  pub check_name : String
  pub success_action : Option Action
  pub warning_action : Option Action
  pub failure_action : Option Action
  pub timeout_action : Option Action
  pub status : Status

unfoldable pub new_action_runner :
    String → Option Action → Option Action → Option Action → Option Action → ActionRunner
new_action_runner check_name success_action warning_action failure_action timeout_action = record {
  check_name = check_name;
  success_action = success_action;
  warning_action = warning_action;
  failure_action = failure_action;
  timeout_action = timeout_action;
  status = initializing;
}

-- what the goroutine captures
pub record Job : Type 0 where
  pub action : Action
  pub check_name : String
  pub message : String
  pub event_id : String
  pub sequence : ℤ
  pub finished_message : String

unfoldable pub run_timeout : Action → ℤ
run_timeout a =
    if ltb_ℤ (pos 0) a.timeout
    then a.timeout
    else if ltb_ℤ (pos 0) a.unlock_after_duration
    then a.unlock_after_duration
    else default_action_timeout

-- what is handed to `/bin/sh -c`, and what comes back: its output, and an error if it failed
pub record Invocation : Type 0 where
  pub command : String
  pub deadline : ℤ
  pub environment : String

pub record Completion : Type 0 where
  pub output : List ℕ
  pub error : Error

-- `Action.Run`; the shell is `exec`
unfoldable pub run : (Invocation → Completion) → String → Action → CheckNotification
unfolding run_timeout
run exec message a =
    let done = exec (record {
      command = a.command;
      deadline = run_timeout a;
      environment = "HEALTH_GO_MESSAGE=" <> message;
    }) in
    record {
      name = "";
      message = get_or done.error "";
      attachment = if a.send_command_output then done.output else [];
      tags = elim done.error [ none ↦ "run:success" ∷ [] | some e ↦ "run:error" ∷ [] ];
      notifiers = a.notifiers;
      event_id = "";
      sequence = pos 0;
    }

unfoldable pub event_tags : String → ℤ → List String
event_tags event_id sequence = ("event_id:" <> event_id) ∷ ("sequence:" <> itoa sequence) ∷ []

-- the notification that the goroutine sends
unfoldable pub job_notification : (Invocation → Completion) → Job → CheckNotification
unfolding run event_tags
job_notification exec job =
    let result = run exec job.message job.action in
    let named = record result {
      name = job.check_name;
      notifiers = job.action.notifiers;
      message = if result.message == "" then job.finished_message else result.message;
    } in
    if not (job.event_id == "")
    then record named {
      event_id = job.event_id;
      sequence = job.sequence;
      tags = named.tags ++ event_tags job.event_id job.sequence;
    }
    else named

unfoldable pub finish : (Invocation → Completion) → Time → Job → Notifications → Notifications
unfolding job_notification
finish exec now job n = send now (job_notification exec job) n

-- the first half of a handler: may the action run, and does the runner's status change
unfoldable pub unlock : Status → Bool → Time → Action → Status → Action × Status
unlock target ready now a status =
    if a.unlock_only_after_healthy
    then if not (eq_status status target)
      then (record a { can_run = true }, target)
      else (a, status)
    else if leb_ℤ a.unlock_after_duration (since now a.last_run) && ready
    then (record a { can_run = true }, target)
    else (a, status)

-- the sequence number of the job, reserved before the command runs
unfoldable pub reserve_sequence : String → EventTracker → ℤ × EventTracker
reserve_sequence event_id t =
    if not (event_id == "") then get_next_sequence event_id t else (pos 0, t)

-- the second half: start the command
unfoldable pub start :
    String
    → String
    → Time
    → String
    → String
    → Action
    → EventTracker
    → Action × EventTracker × Option Job
unfolding reserve_sequence
start finished_message check_name now message event_id a t =
    if a.can_run && not (a.command == "")
    then (
      record a { can_run = false; last_run = now },
      (reserve_sequence event_id t).1,
      some (record {
        action = a;
        check_name = check_name;
        message = message;
        event_id = event_id;
        sequence = (reserve_sequence event_id t).0;
        finished_message = finished_message;
      }),
    )
    else (a, t, none)

-- both halves; without an action the runner only notes the status
unfoldable pub handle :
    Status
    → Bool
    → String
    → String
    → Time
    → String
    → String
    → Option Action
    → Status
    → EventTracker
    → Option Action × Status × EventTracker × Option Job
unfolding unlock start
handle target ready finished_message check_name now message event_id none status t =
    (none, target, t, none)
handle target ready finished_message check_name now message event_id (some a) status t =
    let (a', status') = unlock target ready now a status in
    let (a'', t', job) = start finished_message check_name now message event_id a' t in
    (some a'', status', t', job)

-- a success action runs only if the runner is not in passing, whatever the cooldown
unfoldable pub success :
    Time → String → String → ActionRunner → EventTracker → ActionRunner × EventTracker × Option Job
unfolding handle
success now message event_id r t =
    let (a, status, t', job) =
      handle passing (not (eq_status r.status passing)) "Finished running success action."
        r.check_name now message event_id r.success_action r.status t in
    (record r { success_action = a; status = status }, t', job)

unfoldable pub failure :
    Time → String → String → ActionRunner → EventTracker → ActionRunner × EventTracker × Option Job
unfolding handle
failure now message event_id r t =
    let (a, status, t', job) =
      handle critical true "Finished running failure action." r.check_name now message event_id
        r.failure_action r.status t in
    (record r { failure_action = a; status = status }, t', job)

unfoldable pub warn :
    Time → String → String → ActionRunner → EventTracker → ActionRunner × EventTracker × Option Job
unfolding handle
warn now message event_id r t =
    let (a, status, t', job) =
      handle warning true "Finished running warning action." r.check_name now message event_id
        r.warning_action r.status t in
    (record r { warning_action = a; status = status }, t', job)

unfoldable pub time_out :
    Time → String → String → ActionRunner → EventTracker → ActionRunner × EventTracker × Option Job
unfolding handle
time_out now message event_id r t =
    let (a, status, t', job) =
      handle timeout true "Finished running timeout action." r.check_name now message event_id
        r.timeout_action r.status t in
    (record r { timeout_action = a; status = status }, t', job)

abbrev pub action_state : Option Action → Option ActionState
action_state none = none
action_state (some a) = some (record { last_run = a.last_run; can_run = a.can_run })

unfoldable pub get_state : ActionRunner → ActionRunnerState
get_state r = record {
  status = r.status;
  success_action = action_state r.success_action;
  warning_action = action_state r.warning_action;
  failure_action = action_state r.failure_action;
  timeout_action = action_state r.timeout_action;
}

abbrev pub restore_action : Option ActionState → Option Action → Option Action
restore_action (some state) (some a) =
    some (record a { last_run = state.last_run; can_run = state.can_run })
restore_action none a = a
restore_action _ none = none

unfoldable pub restore_state : Option ActionRunnerState → ActionRunner → ActionRunner
restore_state none r = r
restore_state (some state) r = record r {
  status = state.status;
  success_action = restore_action state.success_action r.success_action;
  warning_action = restore_action state.warning_action r.warning_action;
  failure_action = restore_action state.failure_action r.failure_action;
  timeout_action = restore_action state.timeout_action r.timeout_action;
}
