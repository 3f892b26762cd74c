-- ===== src/Sqlite/Schema.antt =====
-- persister/sqlite/sqlite.go: the tables of initSchema, the columns that the INSERT statements bind, and
-- the variables that the SELECT statements are scanned into. The text of a time and of JSON is a
-- parameter.
pub mod Fits
use health_go.Base.{
  String, Bool, true, false, not, ◌&&◌, Option, none, some, List, [], ◌∷◌, ◌==◌, ℕ, if◌then◌else◌,
}
use health_go.Base.Int.{ℤ, pos}
use health_go.Base.GoMap.{GoMap}
use health_go.Types.{status_text}
use health_go.Sqlite.Table.{TrackerRow, CheckRow}

pub data ColumnType : Type 0 where
  integer text : ColumnType

-- `check` is the integer that a CHECK asks for
pub record Column : Type 0 where
  pub name : String
  pub column_type : ColumnType
  pub not_null : Bool
  pub check : Option ℤ

abbrev required : String → ColumnType → Column
required name column_type = record {
  name = name;
  column_type = column_type;
  not_null = true;
  check = none;
}

abbrev optional : String → ColumnType → Column
optional name column_type = record {
  name = name;
  column_type = column_type;
  not_null = false;
  check = none;
}

-- the table event_tracker_state
abbrev pub tracker_table : List Column
tracker_table =
    record (optional "id" integer) { check = some (pos 1) }
    ∷ required "event_ids" text
    ∷ required "sequences" text
    ∷ required "maintenance_event_id" text
    ∷ required "maintenance_active" integer
    ∷ required "maintenance_checks" text
    ∷ required "updated_at" text
    ∷ []

-- the table check_states
abbrev pub check_table : List Column
check_table =
    optional "check_name" text
    ∷ required "successes" integer
    ∷ required "failures" integer
    ∷ required "pending_event_id" text
    ∷ required "status" text
    ∷ required "error_msg" text
    ∷ required "action_runner_status" text
    ∷ optional "success_action_last_run" text
    ∷ optional "success_action_can_run" integer
    ∷ optional "warning_action_last_run" text
    ∷ optional "warning_action_can_run" integer
    ∷ optional "failure_action_last_run" text
    ∷ optional "failure_action_can_run" integer
    ∷ optional "timeout_action_last_run" text
    ∷ optional "timeout_action_can_run" integer
    ∷ required "updated_at" text
    ∷ []

-- what a parameter of a statement is: NULL, an integer, which a Boolean is stored as, or a text
pub data Value : Type 0 where
  null : Value
  number : ℤ → Value
  word : String → Value

module _ (format : ℕ → String) where
  -- `sql.NullString` with a time, and `sql.NullBool`
  abbrev null_time : Option ℕ → Value
  null_time none = null
  null_time (some t) = word (format t)

  abbrev null_bool : Option Bool → Value
  null_bool none = null
  null_bool (some b) = number (if b then pos 1 else pos 0)

  -- the columns of the INSERT into check_states, with its arguments
  unfoldable pub check_bindings : String → CheckRow → List (String × Value)
  check_bindings check_name row =
      ("check_name", word check_name)
      ∷ ("successes", number row.successes)
      ∷ ("failures", number row.failures)
      ∷ ("pending_event_id", word row.pending_event_id)
      ∷ ("status", word (status_text row.status))
      ∷ ("error_msg", word row.error_msg)
      ∷ ("action_runner_status", word (status_text row.action_runner_status))
      ∷ ("success_action_last_run", null_time row.success_action_last_run)
      ∷ ("success_action_can_run", null_bool row.success_action_can_run)
      ∷ ("warning_action_last_run", null_time row.warning_action_last_run)
      ∷ ("warning_action_can_run", null_bool row.warning_action_can_run)
      ∷ ("failure_action_last_run", null_time row.failure_action_last_run)
      ∷ ("failure_action_can_run", null_bool row.failure_action_can_run)
      ∷ ("timeout_action_last_run", null_time row.timeout_action_last_run)
      ∷ ("timeout_action_can_run", null_bool row.timeout_action_can_run)
      ∷ ("updated_at", word (format row.updated_at))
      ∷ []

-- a Go variable that a column is scanned into: an int or a string, or one that may be NULL
pub data Target : Type 0 where
  plain nullable : ColumnType → Target

-- the SELECT of LoadAllCheckStates; that of LoadCheckState is without the name
abbrev pub check_targets : List (String × Target)
check_targets =
    ("check_name", plain text)
    ∷ ("successes", plain integer)
    ∷ ("failures", plain integer)
    ∷ ("pending_event_id", plain text)
    ∷ ("status", plain text)
    ∷ ("error_msg", plain text)
    ∷ ("action_runner_status", plain text)
    ∷ ("success_action_last_run", nullable text)
    ∷ ("success_action_can_run", nullable integer)
    ∷ ("warning_action_last_run", nullable text)
    ∷ ("warning_action_can_run", nullable integer)
    ∷ ("failure_action_last_run", nullable text)
    ∷ ("failure_action_can_run", nullable integer)
    ∷ ("timeout_action_last_run", nullable text)
    ∷ ("timeout_action_can_run", nullable integer)
    ∷ ("updated_at", plain text)
    ∷ []

-- the columns of the INSERT into event_tracker_state, with its arguments
unfoldable pub tracker_bindings :
    {C : Type 0} → (C → String) → (ℕ → String) → TrackerRow C → List (String × Value)
tracker_bindings json format row =
    ("id", number (pos 1))
    ∷ ("event_ids", word (json row.event_ids))
    ∷ ("sequences", word (json row.sequences))
    ∷ ("maintenance_event_id", word row.maintenance_event_id)
    ∷ ("maintenance_active", number (pos row.maintenance_active))
    ∷ ("maintenance_checks", word (json row.maintenance_checks))
    ∷ ("updated_at", word (format row.updated_at))
    ∷ []

-- the SELECT of LoadEventTrackerState
abbrev pub tracker_targets : List (String × Target)
tracker_targets =
    ("event_ids", plain text)
    ∷ ("sequences", plain text)
    ∷ ("maintenance_event_id", plain text)
    ∷ ("maintenance_active", plain integer)
    ∷ ("maintenance_checks", plain text)
    ∷ ("updated_at", plain text)
    ∷ []
