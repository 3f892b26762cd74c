-- ===== src/Actions/Persistence.antt =====
-- actions.go, GetState and RestoreState.
use health_go.Base.{Option, none, some, ◌≡◌, refl}
use health_go.Types.{Time, Action, ActionState, ActionRunnerState}
use health_go.Actions.{ActionRunner, get_state, restore_state, action_state, restore_action}

restore_own :
    (s : Option ActionState) (a : Option Action)
    → restore_action (action_state a) (restore_action s a) ≡ a
restore_own none none = refl
restore_own none (some a) = refl
restore_own (some s) none = refl
restore_own (some s) (some a) = refl

-- Take any runner with the same configuration, whatever its own cooldowns and status are: here the runner
-- after it was restored from some other state. Restoring the saved state gives the saved runner.
pub runner_round_trip :
    (other : Option ActionRunnerState) (r : ActionRunner)
    → restore_state (some (get_state r)) (restore_state other r) ≡ r
unfolding restore_state get_state
runner_round_trip none r = rw (
  restore_own none r.success_action,
  restore_own none r.warning_action,
  restore_own none r.failure_action,
  restore_own none r.timeout_action,
)
runner_round_trip (some s) r = λ i. record {
  check_name = r.check_name;
  success_action = restore_own s.success_action r.success_action i;
  warning_action = restore_own s.warning_action r.warning_action i;
  failure_action = restore_own s.failure_action r.failure_action i;
  timeout_action = restore_own s.timeout_action r.timeout_action i;
  status = r.status;
}

-- a saved action, whose time went through `keep`
abbrev pub action_in : (Time → Time) → Option ActionState → Option ActionState
action_in keep none = none
action_in keep (some a) = some (record a { last_run = keep a.last_run })

abbrev pub runner_in : (Time → Time) → ActionRunnerState → ActionRunnerState
runner_in keep r = record {
  status = r.status;
  success_action = action_in keep r.success_action;
  warning_action = action_in keep r.warning_action;
  failure_action = action_in keep r.failure_action;
  timeout_action = action_in keep r.timeout_action;
}

action_in-same : (a : Option ActionState) → action_in (λ t. t) a ≡ a
action_in-same none = refl
action_in-same (some a) = refl

pub runner_in-same : (r : ActionRunnerState) → runner_in (λ t. t) r ≡ r
runner_in-same r i = record {
  status = r.status;
  success_action = action_in-same r.success_action i;
  warning_action = action_in-same r.warning_action i;
  failure_action = action_in-same r.failure_action i;
  timeout_action = action_in-same r.timeout_action i;
}

-- The configured action with the lock and the time of the old one.
abbrev pub carried : (Time → Time) → Option Action → Option Action → Option Action
carried keep (some old) (some a) =
    some (record a { last_run = keep old.last_run; can_run = old.can_run })
carried keep none a = a
carried keep (some old) none = none

-- A runner has the status of the old one, and its actions have the locks and the times of the old ones.
abbrev pub CarriesOver : (Time → Time) → ActionRunner → ActionRunner → ActionRunner → Type 0
CarriesOver keep old configured r =
    (r.status ≡ old.status)
    × (r.success_action ≡ carried keep old.success_action configured.success_action)
    × (r.warning_action ≡ carried keep old.warning_action configured.warning_action)
    × (r.failure_action ≡ carried keep old.failure_action configured.failure_action)
    × (r.timeout_action ≡ carried keep old.timeout_action configured.timeout_action)

restore_action-carried :
    (keep : Time → Time) (old a : Option Action)
    → restore_action (action_in keep (action_state old)) a ≡ carried keep old a
restore_action-carried keep none a = refl
restore_action-carried keep (some old) none = refl
restore_action-carried keep (some old) (some a) = refl

pub restored-CarriesOver :
    (keep : Time → Time) (old configured : ActionRunner)
    → CarriesOver keep old configured
        (restore_state (some (runner_in keep (get_state old))) configured)
unfolding restore_state get_state
restored-CarriesOver keep old configured = (
  refl,
  restore_action-carried keep old.success_action configured.success_action,
  restore_action-carried keep old.warning_action configured.warning_action,
  restore_action-carried keep old.failure_action configured.failure_action,
  restore_action-carried keep old.timeout_action configured.timeout_action,
)
