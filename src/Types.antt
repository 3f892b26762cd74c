-- ===== src/Types.antt =====
-- types.go: the statuses, the notification and the configuration of an action; persister.go: the
-- states that are saved.
use health_go.Base.{String, Bool, true, false, Option, List, ℕ, ◌==◌}
use health_go.Base.Int.{ℤ, pos}
use health_go.Base.GoMap.{GoMap}

-- `Status` is a string type with five named values; any other string is `unknown`
pub data Status : Type 0 where
  passing warning critical timeout initializing : Status
  unknown : String → Status

-- `string(status)`
unfoldable pub status_text : Status → String
status_text passing = "passing"
status_text warning = "warning"
status_text critical = "critical"
status_text timeout = "timeout"
status_text initializing = "initializing"
status_text (unknown s) = s

-- `==` on statuses
abbrev pub eq_status : Status → Status → Bool
eq_status passing passing = true
eq_status warning warning = true
eq_status critical critical = true
eq_status timeout timeout = true
eq_status initializing initializing = true
eq_status (unknown s) (unknown t) = s == t
eq_status _ _ = false

-- `error`: nil, or a value with a message
abbrev pub Error : Type 0
Error = Option String

-- nanoseconds since the zero `time.Time`, which is 0
abbrev pub Time : Type 0
Time = ℕ

abbrev pub second : ℕ
second = 1000000000

abbrev pub minimum_interval : ℤ
minimum_interval = pos second

abbrev pub default_interval : ℤ
default_interval = pos 10000000000

abbrev pub default_action_timeout : ℤ
default_action_timeout = pos 60000000000

pub record CheckNotification : Type 0 where
  pub name : String
  pub message : String
  pub attachment : List ℕ
  pub tags : List String
  pub notifiers : List String
  pub event_id : String
  pub sequence : ℤ

pub record Action : Type 0 where
  pub command : String
  pub unlock_after_duration : ℤ
  pub unlock_only_after_healthy : Bool
  pub timeout : ℤ
  pub send_command_output : Bool
  pub notifiers : List String
  pub last_run : Time
  pub can_run : Bool

pub record EventTrackerState : Type 0 where
  pub event_ids : Option (GoMap String)
  pub sequences : Option (GoMap ℤ)
  pub maintenance_event_id : String
  pub maintenance_active : Bool
  pub maintenance_checks : Option (GoMap Bool)
  pub updated_at : Time

pub record ActionState : Type 0 where
  pub last_run : Time
  pub can_run : Bool

pub record ActionRunnerState : Type 0 where
  pub status : Status
  pub success_action : Option ActionState
  pub warning_action : Option ActionState
  pub failure_action : Option ActionState
  pub timeout_action : Option ActionState

pub record CheckState : Type 0 where
  pub successes : ℤ
  pub failures : ℤ
  pub pending_event_id : String
  pub status : Status
  pub error_msg : String
  pub action_runner_state : Option ActionRunnerState
  pub updated_at : Time
