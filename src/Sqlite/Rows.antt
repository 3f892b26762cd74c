-- ===== src/Sqlite/Rows.antt =====
-- persister/sqlite/sqlite.go: what a row keeps of a state.
use health_go.Base.Json.{IsFaithful}
use health_go.Base.{
  Option, none, some, ◌≡◌, refl, arith, ◌*◌, ◌/◌, get_or, inl, Bool, true, false, eqb,
  if◌then◌else◌,
}
use health_go.Types.{second, Time, ActionState, ActionRunnerState, CheckState, EventTrackerState}
use health_go.Actions.Persistence.{action_in, runner_in}
use health_go.Sqlite.{
  check_row, scan_check_state, last_run_column, can_run_column, scan_action, no_runner, tracker_row,
  scan_tracker, TrackerJson, TrackerRow, format_time,
}

abbrev pub whole_seconds : Time → Time
whole_seconds t = t / second * second

abbrev pub runner_in_seconds : ActionRunnerState → ActionRunnerState
runner_in_seconds r = runner_in whole_seconds r

action_columns :
    (a : Option ActionState)
    → scan_action (last_run_column a) (can_run_column a) ≡ action_in whole_seconds a
unfolding scan_action last_run_column can_run_column
action_columns none = refl
action_columns (some a) = ground arith

-- A check state that is written and read again is the same up to whole seconds of its times, with a runner
-- in critical and without actions where it had none.
pub check_row-scan :
    (state : CheckState)
    → scan_check_state (check_row state) ≡ record state {
      action_runner_state = some (runner_in_seconds (get_or state.action_runner_state no_runner));
      updated_at = whole_seconds state.updated_at;
    }
unfolding scan_check_state check_row
check_row-scan state =
    let r = get_or state.action_runner_state no_runner in
    λ i. record {
      successes = state.successes;
      failures = state.failures;
      pending_event_id = state.pending_event_id;
      status = state.status;
      error_msg = state.error_msg;
      action_runner_state = some (record {
        status = r.status;
        success_action = action_columns r.success_action i;
        warning_action = action_columns r.warning_action i;
        failure_action = action_columns r.failure_action i;
        timeout_action = action_columns r.timeout_action i;
      });
      updated_at = whole_seconds state.updated_at;
    }

-- the maps of every tracker state are encoded, and decoded to themselves
pub record IsFaithfulTracker {C : Type 0} (json : TrackerJson C) : Type 0 where
  pub event_ids : IsFaithful json.event_ids
  pub sequences : IsFaithful json.sequences
  pub maintenance_checks : IsFaithful json.maintenance_checks

module _ {C : Type 0} (json : TrackerJson C) (f : IsFaithfulTracker json) where
  -- the row of a tracker state
  abbrev pub encoded_row : EventTrackerState → TrackerRow C
  encoded_row state = record {
    event_ids = f.event_ids.encoded state.event_ids;
    sequences = f.sequences.encoded state.sequences;
    maintenance_event_id = state.maintenance_event_id;
    maintenance_active = if state.maintenance_active then 1 else 0;
    maintenance_checks = f.maintenance_checks.encoded state.maintenance_checks;
    updated_at = format_time state.updated_at;
  }

  pub tracker_row-encoded :
      (state : EventTrackerState) → tracker_row json state ≡ inl (encoded_row state)
  unfolding tracker_row
  tracker_row-encoded state =
      rw
        (
          f.event_ids.marshalled state.event_ids,
          f.sequences.marshalled state.sequences,
          f.maintenance_checks.marshalled state.maintenance_checks,
        )
        refl

  active_flag : (active : Bool) → eqb (if active then 1 else 0) 1 ≡ active
  active_flag true = refl
  active_flag false = refl

  -- A tracker state that is written and read again is the same up to whole seconds of its time.
  pub tracker_row-scan :
      (state : EventTrackerState)
      → scan_tracker json (encoded_row state)
        ≡ inl (record state { updated_at = whole_seconds state.updated_at })
  unfolding scan_tracker
  tracker_row-scan state =
      rw
        (
          f.event_ids.unmarshalled state.event_ids,
          f.sequences.unmarshalled state.sequences,
          f.maintenance_checks.unmarshalled state.maintenance_checks,
          active_flag state.maintenance_active,
        )
        refl
