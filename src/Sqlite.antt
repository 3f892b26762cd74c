-- ===== src/Sqlite.antt =====
-- persister/sqlite/sqlite.go: the persister that batches saves and writes them to a database. The
-- database is a parameter, with the statements that the code sends it; Table has
-- the rows.
pub mod Table
pub mod Rows
pub mod Batches
pub mod Trackers
pub mod Reopening
pub mod Listing
pub mod Opening
pub mod Steps
pub mod Schema
use health_go.Base.{
  ◌⊎◌, inl, inr, ◌==◌, String, Bool, true, false, ◌||◌, Option, none, some, List, [], ◌∷◌, ℕ, ◌*◌,
  ◌/◌, eqb, if◌then◌else◌, is_some, get_or,
}
use health_go.Base.Int.{ℤ, pos, cmp_or}
use health_go.Base.Text.{◌<>◌}
use health_go.Base.GoMap.{GoMap, put}
use health_go.Types.{
  Status, critical, Error, Time, second, EventTrackerState, CheckState, ActionState,
  ActionRunnerState,
}
pub use health_go.Sqlite.Table.{
  TrackerJson, TrackerRow, CheckRow, format_time, parse_time, no_runner,
}
unfoldable pub use health_go.Sqlite.Table.{
  tracker_row, scan_tracker, last_run_column, can_run_column, scan_action, check_row,
  scan_check_state, scan_check_state_from_rows,
}

-- what `rows.Next` goes through, each row with its key or the error of its scan, and `rows.Err` after it
pub record ResultSet : Type 0 where
  pub scans : List (String × (CheckRow ⊎ String))
  pub err : Error

-- the statements, over the database's state, and the JSON that they carry
pub record Database (D : Type 0) : Type 1 where
  pub Text : Type 0
  pub json : TrackerJson Text
  pub upsert_tracker : TrackerRow Text → D → D × Error
  pub select_tracker : D → Option (TrackerRow Text) × Error
  pub upsert_check : String → CheckRow → D → D × Error
  pub select_check : String → D → Option CheckRow × Error
  pub select_checks : D → ResultSet ⊎ String
  pub delete_check : String → D → D × Error
  pub close_db : D → D × Error

-- `timer` is `debounceTimer != nil`
pub record Persister (D : Type 0) : Type 0 where
  pub db : D
  pub closed : Bool
  pub pending_event_state : Option EventTrackerState
  pub pending_check_states : GoMap CheckState
  pub timer : Bool

abbrev pub closed_error : String
closed_error = "sqlite: persister is closed"

module _ {D : Type 0} where
  -- a timer that is set stays
  abbrev pub schedule_save : Persister D → Persister D
  schedule_save p = record p { timer = true }

  unfoldable pub save_tracker : EventTrackerState → Persister D → Persister D × Error
  save_tracker state p = (schedule_save (record p { pending_event_state = some state }), none)

  unfoldable pub save_check : String → CheckState → Persister D → Persister D × Error
  save_check name state p = (
    schedule_save (record p { pending_check_states = put name state p.pending_check_states }),
    none,
  )

module _ {D : Type 0} (q : Database D) where
  -- an error is logged
  unfoldable pub write_tracker : Option EventTrackerState → D → D
  unfolding tracker_row
  write_tracker none d = d
  write_tracker (some state) d = elim (tracker_row q.json state) [
    | inl row ↦ (q.upsert_tracker row d).0
    | inr e ↦ d
  ]

  unfoldable pub write_checks : GoMap CheckState → D → D
  write_checks [] d = d
  write_checks ((name, state) ∷ states) d =
      write_checks states (q.upsert_check name (check_row state) d).0

  -- the pending states are taken, and dropped if the persister is closed
  unfoldable pub flush_pending : Persister D → Persister D
  unfolding write_tracker write_checks
  flush_pending p = record p {
    pending_event_state = none;
    pending_check_states = [];
    db =
        if p.closed
        then p.db
        else write_checks p.pending_check_states (write_tracker p.pending_event_state p.db);
  }

  -- the timer's callback
  unfoldable pub fire : Persister D → Persister D
  unfolding flush_pending
  fire p = flush_pending (record p { timer = false })

  unfoldable pub close : Persister D → Persister D × Error
  unfolding flush_pending
  close p =
      let p' = flush_pending (record p { timer = false }) in
      let (d, e) = q.close_db p'.db in
      if p'.closed then (p', none) else (record p' { closed = true; db = d }, e)

  unfoldable pub load_check : String → Persister D → Option CheckState × Error
  load_check name p =
      let (row, e) = q.select_check name p.db in
      if p.closed then (none, some closed_error) else elim e [
        | none ↦ (elim row [ none ↦ none | some r ↦ some (scan_check_state r) ], none)
        | some m ↦ (none, some ("sqlite: failed to scan check state: " <> m))
      ]

  -- the state of the row that a SELECT of the tracker found
  unfoldable pub scan_found : Option (TrackerRow q.Text) → Option EventTrackerState × Error
  unfolding scan_tracker
  scan_found none = (none, none)
  scan_found (some r) = elim (scan_tracker q.json r) [
    | inl state ↦ (some state, none)
    | inr e ↦ (none, some e)
  ]

  unfoldable pub load_tracker : Persister D → Option EventTrackerState × Error
  unfolding scan_found
  load_tracker p =
      let (row, e) = q.select_tracker p.db in
      if p.closed then (none, some closed_error) else elim e [
        | none ↦ scan_found row
        | some m ↦ (none, some ("sqlite: failed to load event tracker state: " <> m))
      ]

  unfoldable pub delete_check_state : String → Persister D → Persister D × Error
  delete_check_state name p =
      let (d, e) = q.delete_check name p.db in
      if p.closed then (p, some closed_error) else (
        record p { db = d },
        elim e [ none ↦ none | some m ↦ some ("sqlite: failed to delete check state: " <> m) ],
      )

  -- the loop over the rows: the states so far, or the first error of a scan
  unfoldable pub collect :
      List (String × (CheckRow ⊎ String)) → GoMap CheckState → GoMap CheckState ⊎ String
  unfolding scan_check_state_from_rows
  collect [] states = inl states
  collect ((name, inl row) ∷ rows) states =
      collect rows (put name (scan_check_state_from_rows row) states)
  collect ((name, inr e) ∷ rows) states = inr ("sqlite: failed to scan check state row: " <> e)

  -- after the loop, the error of the iteration
  unfoldable pub finish_rows : ResultSet → GoMap CheckState × Error
  unfolding collect
  finish_rows rows = elim (collect rows.scans []) [
    | inr e ↦ ([], some e)
    | inl states ↦ elim rows.err [
      | none ↦ (states, none)
      | some m ↦ ([], some ("sqlite: error iterating check states: " <> m))
    ]
  ]

  -- a nil map is the empty one
  unfoldable pub load_all_check_states : Persister D → GoMap CheckState × Error
  unfolding finish_rows
  load_all_check_states p =
      if p.closed then ([], some closed_error) else elim (q.select_checks p.db) [
        | inr e ↦ ([], some ("sqlite: failed to query check states: " <> e))
        | inl rows ↦ finish_rows rows
      ]

-- `Config`
pub record Config : Type 0 where
  pub path : String
  pub debounce_interval : ℤ

abbrev pub default_debounce_interval : ℤ
default_debounce_interval = pos second

-- a persister on an open database, with nothing pending
abbrev pub fresh : {D : Type 0} → D → Persister D
fresh d = record {
  db = d;
  closed = false;
  pending_event_state = none;
  pending_check_states = [];
  timer = false;
}

-- what opens a database: `sql.Open` with a data source, `Ping`, and `Exec` of the schema
pub record Driver (D : Type 0) : Type 0 where
  pub open_db : String → D ⊎ String
  pub ping : D → D × Error
  pub exec_schema : D → D × Error

module _ {D : Type 0} (driver : Driver D) (q : Database D) where
  -- an error closes the database that was opened, and drops the error of that
  abbrev pub give_up : String → D → (Config × Persister D) ⊎ (String × Option D)
  give_up message d = inr (message, some (q.close_db d).0)

  unfoldable pub connect : Config → D → (Config × Persister D) ⊎ (String × Option D)
  connect c d =
      let (pinged, e) = driver.ping d in
      let (made, e') = driver.exec_schema pinged in
      elim e [
        | some m ↦ give_up ("sqlite: failed to ping database: " <> m) pinged
        | none ↦ elim e' [
          | some m ↦ give_up ("sqlite: failed to initialize schema: " <> m) made
          | none ↦ inl (c, fresh made)
        ]
      ]

  -- `New`: the persister with its configuration, or an error with the database that it closed
  unfoldable pub new : Config → (Config × Persister D) ⊎ (String × Option D)
  unfolding connect
  new c =
      let c' = record c {
        debounce_interval = cmp_or c.debounce_interval default_debounce_interval;
      } in
      if c.path == ""
      then inr ("sqlite: path is required", none)
      else elim (driver.open_db (c.path <> "?_journal_mode=WAL&_busy_timeout=5000")) [
        | inr e ↦ inr ("sqlite: failed to open database: " <> e, none)
        | inl d ↦ connect c' d
      ]
