-- ===== src/Sqlite/Table.antt =====
-- persister/sqlite/sqlite.go: the rows of the two tables, from a state and back. A column with a time in
-- RFC 3339 is held as the number of its second, a column with JSON as a
-- text of type `C`.
use health_go.Base.Text.{◌<>◌}
use health_go.Base.Json.{Json}
use health_go.Base.{
  String, Bool, false, ◌||◌, Option, none, some, ℕ, ◌*◌, ◌/◌, eqb, if◌then◌else◌, is_some, get_or,
  ◌⊎◌, inl, inr,
}
use health_go.Base.Int.{ℤ}
use health_go.Base.GoMap.{GoMap}
use health_go.Types.{
  Status, critical, Time, second, EventTrackerState, CheckState, ActionState, ActionRunnerState,
}

-- `encoding/json` for the maps of the tracker's state, where `none` is a nil map
pub record TrackerJson (C : Type 0) : Type 0 where
  pub event_ids : Json C (Option (GoMap String))
  pub sequences : Json C (Option (GoMap ℤ))
  pub maintenance_checks : Json C (Option (GoMap Bool))

pub record TrackerRow (C : Type 0) : Type 0 where
  pub event_ids : C
  pub sequences : C
  pub maintenance_event_id : String
  pub maintenance_active : ℕ
  pub maintenance_checks : C
  pub updated_at : ℕ

-- `none` is NULL
pub record CheckRow : Type 0 where
  pub successes : ℤ
  pub failures : ℤ
  pub pending_event_id : String
  pub status : Status
  pub error_msg : String
  pub action_runner_status : Status
  pub success_action_last_run : Option ℕ
  pub success_action_can_run : Option Bool
  pub warning_action_last_run : Option ℕ
  pub warning_action_can_run : Option Bool
  pub failure_action_last_run : Option ℕ
  pub failure_action_can_run : Option Bool
  pub timeout_action_last_run : Option ℕ
  pub timeout_action_can_run : Option Bool
  pub updated_at : ℕ

-- `Format(time.RFC3339)` drops what is below a second, and `Parse` gives the second back
abbrev pub format_time : Time → ℕ
format_time t = t / second

abbrev pub parse_time : ℕ → Time
parse_time n = n * second

-- an error, with what it is about
abbrev pub or_fail : {V : Type 0} → String → V ⊎ String → V ⊎ String
or_fail message (inl v) = inl v
or_fail message (inr e) = inr (message <> (": " <> e))

-- a result after the ones before it, or the first error
abbrev pub then_with : {V W : Type 0} → V ⊎ String → (V → W ⊎ String) → W ⊎ String
then_with (inl v) next = next v
then_with (inr e) next = inr e

module _ {C : Type 0} (json : TrackerJson C) where
  -- the row that is written, or the error of a map that cannot be encoded
  unfoldable pub tracker_row : EventTrackerState → TrackerRow C ⊎ String
  tracker_row state =
      then_with (or_fail "failed to marshal event_ids" (json.event_ids.marshal state.event_ids))
        (λ ids.
          then_with (or_fail "failed to marshal sequences" (json.sequences.marshal state.sequences))
            (λ sequences.
              then_with
                (or_fail "failed to marshal maintenance_checks"
                  (json.maintenance_checks.marshal state.maintenance_checks))
                (λ checks. inl (record {
                  event_ids = ids;
                  sequences = sequences;
                  maintenance_event_id = state.maintenance_event_id;
                  maintenance_active = if state.maintenance_active then 1 else 0;
                  maintenance_checks = checks;
                  updated_at = format_time state.updated_at;
                }))))

  -- the state of a row, or the error of a text that cannot be decoded
  unfoldable pub scan_tracker : TrackerRow C → EventTrackerState ⊎ String
  scan_tracker row =
      then_with
        (or_fail "sqlite: failed to unmarshal event_ids" (json.event_ids.unmarshal row.event_ids))
        (λ ids.
          then_with
            (or_fail "sqlite: failed to unmarshal sequences"
              (json.sequences.unmarshal row.sequences))
            (λ sequences.
              then_with
                (or_fail "sqlite: failed to unmarshal maintenance_checks"
                  (json.maintenance_checks.unmarshal row.maintenance_checks))
                (λ checks. inl (record {
                  event_ids = ids;
                  sequences = sequences;
                  maintenance_event_id = row.maintenance_event_id;
                  maintenance_active = eqb row.maintenance_active 1;
                  maintenance_checks = checks;
                  updated_at = parse_time row.updated_at;
                }))))

-- the two columns of an action: a time of zero is NULL
unfoldable pub last_run_column : Option ActionState → Option ℕ
last_run_column none = none
last_run_column (some a) = if eqb a.last_run 0 then none else some (format_time a.last_run)

unfoldable pub can_run_column : Option ActionState → Option Bool
can_run_column none = none
can_run_column (some a) = some a.can_run

unfoldable pub scan_action : Option ℕ → Option Bool → Option ActionState
scan_action last_run can_run =
    if is_some last_run || is_some can_run
    then some (record {
      last_run = elim last_run [ none ↦ 0 | some n ↦ parse_time n ];
      can_run = get_or can_run false;
    })
    else none

-- the action runner's part of a row; a state without a runner is saved as critical
abbrev pub no_runner : ActionRunnerState
no_runner = record {
  status = critical;
  success_action = none;
  warning_action = none;
  failure_action = none;
  timeout_action = none;
}

unfoldable pub check_row : CheckState → CheckRow
unfolding last_run_column can_run_column
check_row state =
    let r = get_or state.action_runner_state no_runner in
    record {
      successes = state.successes;
      failures = state.failures;
      pending_event_id = state.pending_event_id;
      status = state.status;
      error_msg = state.error_msg;
      action_runner_status = r.status;
      success_action_last_run = last_run_column r.success_action;
      success_action_can_run = can_run_column r.success_action;
      warning_action_last_run = last_run_column r.warning_action;
      warning_action_can_run = can_run_column r.warning_action;
      failure_action_last_run = last_run_column r.failure_action;
      failure_action_can_run = can_run_column r.failure_action;
      timeout_action_last_run = last_run_column r.timeout_action;
      timeout_action_can_run = can_run_column r.timeout_action;
      updated_at = format_time state.updated_at;
    }

unfoldable pub scan_check_state : CheckRow → CheckState
unfolding scan_action
scan_check_state row = record {
  successes = row.successes;
  failures = row.failures;
  pending_event_id = row.pending_event_id;
  status = row.status;
  error_msg = row.error_msg;
  action_runner_state = some (record {
    status = row.action_runner_status;
    success_action = scan_action row.success_action_last_run row.success_action_can_run;
    warning_action = scan_action row.warning_action_last_run row.warning_action_can_run;
    failure_action = scan_action row.failure_action_last_run row.failure_action_can_run;
    timeout_action = scan_action row.timeout_action_last_run row.timeout_action_can_run;
  });
  updated_at = parse_time row.updated_at;
}

-- the copy of `scanCheckState` for a row of many
unfoldable pub scan_check_state_from_rows : CheckRow → CheckState
unfolding scan_action
scan_check_state_from_rows row = record {
  successes = row.successes;
  failures = row.failures;
  pending_event_id = row.pending_event_id;
  status = row.status;
  error_msg = row.error_msg;
  action_runner_state = some (record {
    status = row.action_runner_status;
    success_action = scan_action row.success_action_last_run row.success_action_can_run;
    warning_action = scan_action row.warning_action_last_run row.warning_action_can_run;
    failure_action = scan_action row.failure_action_last_run row.failure_action_can_run;
    timeout_action = scan_action row.timeout_action_last_run row.timeout_action_can_run;
  });
  updated_at = parse_time row.updated_at;
}
