-- ===== src/Witnesses/SqliteTests.antt =====
-- persister/sqlite/sqlite.go: a database in memory, and the theorems at concrete inputs.
use health_go.Base.{
  true, false, Option, none, some, List, [], ◌∷◌, ◌≡◌, refl, arith, eq_refl, inl, inr, String, Bool,
  ◌⊎◌,
}
use health_go.Base.Int.{ℤ, pos}
use health_go.Base.GoMap.{GoMap, get, put, delete, get-put, get-delete}
use health_go.Types.{critical, passing, CheckState, EventTrackerState}
use health_go.Sqlite.{
  Database, Persister, TrackerRow, CheckRow, check_row, fire, close, delete_check_state,
}
use health_go.Sqlite.Reopening.{check_in_seconds, reopened-loads}
use health_go.Sqlite.Listing.{scanned, Lists, load_all-agrees}
use health_go.Sqlite.{fresh, load_check, load_tracker, load_all_check_states}
use health_go.Sqlite.{save_check, write_checks, write_tracker}
use health_go.Sqlite.Steps.{
  Flushing, Access, saved, fired, moved, finished, accesses, access, move_thread, next_section,
  write_batch,
}
use health_go.Sqlite.Steps.Held.{overlay, single, free}
use health_go.Sqlite.Steps.Kept.{apart, IsWell, latest_row, accesses-overlay}
use health_go.Sqlite.Steps.Races.{overtaken, reordered, overtaken-drops, reordered-keeps_older}
use health_go.Sqlite.{TrackerJson}
use health_go.Sqlite.Schema.{
  check_bindings, tracker_bindings, check_table, tracker_table, check_targets, tracker_targets,
}
use health_go.Sqlite.Schema.Fits.{accepts, scans, saves_fit}
use health_go.Sqlite.Rows.{whole_seconds, IsFaithfulTracker, encoded_row}
use health_go.Sqlite.Batches.{IsReliable, Command, save, save_event, tick, run, deleted-returns}

-- a text of JSON, by what it encodes
pub data Encoding : Type 0 where
  ids : Option (GoMap String) → Encoding
  counters : Option (GoMap ℤ) → Encoding
  names : Option (GoMap Bool) → Encoding

abbrev decode_ids : Encoding → Option (GoMap String) ⊎ String
decode_ids (ids m) = inl m
decode_ids (counters m) = inr "unexpected end of JSON input"
decode_ids (names m) = inr "unexpected end of JSON input"

abbrev decode_counters : Encoding → Option (GoMap ℤ) ⊎ String
decode_counters (ids m) = inr "unexpected end of JSON input"
decode_counters (counters m) = inl m
decode_counters (names m) = inr "unexpected end of JSON input"

abbrev decode_names : Encoding → Option (GoMap Bool) ⊎ String
decode_names (ids m) = inr "unexpected end of JSON input"
decode_names (counters m) = inr "unexpected end of JSON input"
decode_names (names m) = inl m

abbrev encodings : TrackerJson Encoding
encodings = record {
  event_ids = record { marshal = λ m. inl (ids m); unmarshal = decode_ids };
  sequences = record { marshal = λ m. inl (counters m); unmarshal = decode_counters };
  maintenance_checks = record { marshal = λ m. inl (names m); unmarshal = decode_names };
}

pub encodings-IsFaithfulTracker : IsFaithfulTracker encodings
encodings-IsFaithfulTracker = record {
  event_ids = record { encoded = ids; marshalled = λ m. refl; unmarshalled = λ m. refl };
  sequences = record { encoded = counters; marshalled = λ m. refl; unmarshalled = λ m. refl };
  maintenance_checks = record { encoded = names; marshalled = λ m. refl; unmarshalled = λ m. refl };
}

abbrev pub Tables : Type 0
Tables = Option (TrackerRow Encoding) × GoMap CheckRow

abbrev pub tables : Database Tables
tables = record {
  Text = Encoding;
  json = encodings;
  upsert_tracker = λ row d. ((some row, d.1), none);
  select_tracker = λ d. (d.0, none);
  upsert_check = λ name row d. ((d.0, put name row d.1), none);
  select_check = λ name d. (get name d.1, none);
  select_checks = λ d. inl (record { scans = scanned d.1; err = none });
  delete_check = λ name d. ((d.0, delete name d.1), none);
  close_db = λ d. (d, none);
}

pub tables-IsReliable : IsReliable tables
tables-IsReliable = record {
  upserted = λ j k row d. ground (arith, get-put j k row d.1);
  tracker_apart = λ j row d. refl;
  tracker_upserted = λ row d. refl;
  checks_apart = λ k row d. refl;
  tracker_durable = λ d. refl;
  deleted = λ j d. rw (get-delete, eq_refl) refl;
  durable = λ j d. refl;
}

abbrev state : CheckState
state = record {
  successes = pos 0;
  failures = pos 3;
  pending_event_id = "";
  status = critical;
  error_msg = "refused";
  action_runner_state = some (record {
    status = critical;
    success_action = none;
    warning_action = none;
    failure_action = some (record { last_run = 5500000000; can_run = false });
    timeout_action = none;
  });
  updated_at = 7250000000;
}

abbrev recovered : CheckState
recovered = record state { successes = pos 3; failures = pos 0; status = passing; error_msg = "" }

abbrev pub opened : Persister Tables
opened = record {
  db = (none, []);
  closed = false;
  pending_event_state = none;
  pending_check_states = [];
  timer = false;
}

abbrev commands : List Command
commands = save "db" state ∷ save "api" state ∷ tick ∷ save "db" recovered ∷ []

abbrev pending : Persister Tables
pending = record opened { pending_check_states = ("db", state) ∷ []; timer = true }

pending_state : get "db" pending.pending_check_states ≡ some state
unfolding get
pending_state = refl

absent : get {V = CheckState} "db" [] ≡ none
unfolding get
absent = refl

deleted-returns_example :
    tables.select_check "db" (fire tables (delete_check_state tables "db" pending).0).db
    ≡ (some (check_row state), none)
deleted-returns_example =
    deleted-returns tables tables-IsReliable "db" state pending refl (absent, tt) pending_state

abbrev event_state : EventTrackerState
event_state = record {
  event_ids = some (("db", "a1b2c3d4a1b2c3d4") ∷ []);
  sequences = some [];
  maintenance_event_id = "";
  maintenance_active = false;
  maintenance_checks = some [];
  updated_at = 5500000000;
}

abbrev both : List Command
both = save "db" state ∷ save_event event_state ∷ tick ∷ save "db" recovered ∷ save "api" state ∷ []

reopened-loads_example :
    let reopened = fresh (close tables (run tables both opened)).0.db in
    (load_check tables "db" reopened ≡ (some (check_in_seconds recovered), none))
    × (load_tracker tables reopened
        ≡ (some (record event_state { updated_at = whole_seconds 5500000000 }), none))
reopened-loads_example =
    reopened-loads tables tables-IsReliable encodings-IsFaithfulTracker both opened "db" recovered
      event_state refl tt refl refl

abbrev stored : Persister Tables
stored = fresh (none, ("db", check_row state) ∷ [])

stored-Lists : Lists tables stored.db
unfolding get
stored-Lists = record {
  rows = ("db", check_row state) ∷ [];
  distinct = (refl, tt);
  listed = refl;
  same = λ j. refl;
}

load_all-agrees_example :
    ((load_all_check_states tables stored).1 ≡ none)
    × ((j : String)
        → load_check tables j stored ≡ (get j (load_all_check_states tables stored).0, none))
load_all-agrees_example = load_all-agrees tables stored refl stored-Lists

abbrev rest : Flushing Tables
rest = record { persister = opened; threads = [] }

-- a callback takes the failed state; while it holds it the recovered one is saved
abbrev between : List Access
between = saved "db" state ∷ fired ∷ moved 0 ∷ moved 0 ∷ saved "db" recovered ∷ moved 0 ∷ []

between-apart : apart tables between rest ≡ true
unfolding apart single free access move_thread next_section write_batch write_checks write_tracker
    save_check
between-apart = refl

rest-IsWell : IsWell rest
rest-IsWell = record { distinct = tt; tidy = tt }

between-open : (accesses tables between rest).persister.closed ≡ false
unfolding accesses access move_thread next_section write_batch save_check
between-open = refl

accesses-overlay_example :
    overlay tables "db"
      (accesses tables between rest).threads
      (accesses tables between rest).persister
    ≡ latest_row "db" between (overlay tables "db" [] opened)
accesses-overlay_example =
    accesses-overlay tables tables-IsReliable "db" between rest between-apart rest-IsWell
      between-open

overtaken-drops_example :
    let s = accesses tables (overtaken "db" state) rest in
    (s.threads ≡ finished ∷ finished ∷ [])
    × (s.persister.pending_check_states ≡ [])
    × (tables.select_check "db" s.persister.db ≡ tables.select_check "db" opened.db)
overtaken-drops_example = overtaken-drops tables tables-IsReliable opened refl "db" state

reordered-keeps_older_example :
    let s = accesses tables (reordered "db" state recovered) rest in
    (s.threads ≡ finished ∷ finished ∷ [])
    × (s.persister.pending_check_states ≡ [])
    × (tables.select_check "db" s.persister.db ≡ (some (check_row state), none))
reordered-keeps_older_example =
    reordered-keeps_older tables tables-IsReliable opened refl "db" state recovered tt

abbrev json_text : Encoding → String
json_text (ids m) = "{\"db\":\"a1b2c3d4a1b2c3d4\"}"
json_text (counters m) = "{}"
json_text (names m) = "{}"

abbrev tracker_stored : TrackerRow Encoding
tracker_stored = encoded_row encodings encodings-IsFaithfulTracker event_state

saves_fit_example :
    let row = check_bindings (λ n. "2024-01-01T00:00:00Z") "db" (check_row state) in
    let event_row = tracker_bindings json_text (λ n. "2024-01-01T00:00:00Z") tracker_stored in
    (accepts check_table row ≡ true)
    × (scans check_targets row ≡ true)
    × (accepts tracker_table event_row ≡ true)
    × (scans tracker_targets event_row ≡ true)
saves_fit_example = saves_fit json_text (λ n. "2024-01-01T00:00:00Z") "db" state tracker_stored
