-- ===== src/Witnesses/ExampleTests.antt =====
-- _examples: the servers of the examples at concrete inputs.
use mathlib.Core.List.{Memᴰ}
use health_go.Base.{String, some, [], ◌∷◌, List, ◌≡◌, refl, ◌⊎◌, inl, ℕ}
use health_go.Base.Int.{pos}
use health_go.Base.Lists.{All}
use health_go.Base.GoMap.{get, put, IsMap}
use health_go.Types.{Time, critical}
use health_go.Base.Text.{encode_to_string}
use health_go.Events.{EventTracker, new_event_tracker, get_or_create_event_id, generate_short_uuid}
use health_go.Events.Invariant.{IsValid, get_or_create_event_id-IsValid}
use health_go.StatusUpdater.{StatusUpdater, Env}
use health_go.Check.{CheckConfig}
use health_go.Maintenance.{missing, present}
use health_go.Checkers.{value}
use health_go.Health.Container.{Container, custom, empty_container}
use health_go.Health.Endpoint.{Check, Runtime}
use health_go.Health.Endpoint.Unavailable.{IsUnavailable}
use health_go.Sqlite.{Persister, fresh}
use health_go.Sqlite.Rows.{whole_seconds}
use health_go.Server.{sqlite_persister, shut_down}
use health_go.FilePersister.{file_persister, has_slash}
use health_go.FilePersister.Names.{IsPlain}
use health_go.Examples.{Surroundings, Turn, answered, late, paused, started, take_turns}
use health_go.Examples.Turns.{IsFed}
use health_go.Examples.Simple.{main, server_checks}
use health_go.Examples.Simple.Serving.{main-never_ok}
use health_go.Examples.Restoring.{IsRestored}
use health_go.Examples.Persistent.{
  persistent_main, custom_main, database_example, backend_example, save_ticks,
}
use health_go.Examples.Persistent.Restart.{persistent_main-restores, persistent_main-keeps_event}
use health_go.Examples.Persistent.Killed.{custom_main-restores}
use health_go.Witnesses.Data.{env, uuid_a, uuid_a-IsUuid, id_a, new_tracker-IsValid}
use health_go.Witnesses.RestartTests.{failed, failed_error}
use health_go.Witnesses.SqliteTests.{
  Tables, tables, tables-IsReliable, encodings-IsFaithfulTracker, opened,
}
use health_go.Witnesses.FileTests.{
  Files, directory, directory-IsReliable, tracker_json, check_json, tracker_json-IsFaithful,
  check_json-IsFaithful,
}

-- every clock and UUID the same
abbrev envs : String → Env
envs name = env

-- nothing is wrong, but for the RabbitMQ server
abbrev calm : Surroundings
calm = record {
  now = 63900000000000000000;
  file = λ path. missing;
  http_client = λ trace call. value 200;
  sql_client = λ trace call. value tt;
}

abbrev upgrade : Surroundings
upgrade = record calm {
  file = λ path. present (some "Upgrading\nHEALTH_GO_DISABLE_NOTIFICATIONS_3600");
}

abbrev turns : List Turn
turns =
    answered env upgrade "maintenance"
    ∷ answered env calm "some-custom-check-fail"
    ∷ late env calm "http-check"
    ∷ paused "some-custom-check-fail"
    ∷ answered env calm "maintenance"
    ∷ answered env calm "mysql-check"
    ∷ started "some-custom-check-fail"
    ∷ []

turns-IsFed : All IsFed turns
turns-IsFed = (
  uuid_a-IsUuid,
  (uuid_a-IsUuid, (uuid_a-IsUuid, (tt, (uuid_a-IsUuid, (uuid_a-IsUuid, (tt, tt)))))),
)

abbrev marshal : Check → ℕ ⊎ String
marshal c = inl 0

abbrev runtime : Runtime
runtime = record {
  go_version = "go1.22";
  num_goroutine = pos 7;
  total_alloc = 100;
  heap_objects = 10;
  alloc = 20;
}

main-never_ok_example :
    (h : Container ℕ) × (main (pos 4) envs 0 ≡ inl h)
    × IsUnavailable marshal runtime 90
        (record h { health = take_turns server_checks turns h.health })
main-never_ok_example =
    main-never_ok (pos 4) envs 0 (λ name. uuid_a-IsUuid) marshal runtime 90 turns turns-IsFed

abbrev times : String → Time
times name = 7500000000

-- the old servers, whose check has failed
abbrev updater : CheckConfig → StatusUpdater
updater c = record failed { actions = record failed.actions { check_name = c.name } }

abbrev broken_check : CheckConfig → CheckConfig
broken_check c = record c { status = some (updater c) }

abbrev broken_tracker : EventTracker
broken_tracker = (get_or_create_event_id uuid_a "database" critical new_event_tracker).1

broken_tracker-IsValid : IsValid broken_tracker
broken_tracker-IsValid =
    get_or_create_event_id-IsValid uuid_a "database" critical uuid_a-IsUuid new_tracker-IsValid

same_name : broken_tracker.maintenance_check_name ≡ new_event_tracker.maintenance_check_name
unfolding get_or_create_event_id get
same_name = refl

broken_tracker-held : get "database" broken_tracker.event_ids ≡ some id_a
unfolding get put get_or_create_event_id generate_short_uuid encode_to_string
broken_tracker-held = refl

abbrev old_server : Container (Persister Tables)
old_server =
    let h : Container (Persister Tables) = empty_container (pos 4) in
    record h {
      health = record h.health {
        checks = ("database", broken_check database_example.0) ∷ [];
        world = record h.health.world { tracker = broken_tracker };
      };
      persister = custom (some (sqlite_persister tables));
    }

old_server-IsMap : IsMap old_server.health.checks
unfolding get
old_server-IsMap = (refl, tt)

old_database : get "database" old_server.health.checks ≡ some (broken_check database_example.0)
unfolding get
old_database = refl

persistent_main-restores_example :
    let p = fresh (shut_down tables 5500000000 times broken_tracker old_server opened).db in
    (h : Container (Persister Tables)) × (persistent_main tables (pos 8) envs p ≡ inl h)
    × IsRestored whole_seconds database_example.0 h (updater database_example.0)
persistent_main-restores_example =
    persistent_main-restores tables tables-IsReliable 5500000000 times broken_tracker old_server
      opened refl tt refl old_server-IsMap (pos 8) envs database_example
      (broken_check database_example.0) (updater database_example.0) (Memᴰ.tail (Memᴰ.head refl))
      old_database refl failed_error

persistent_main-keeps_event_example :
    let p = fresh (shut_down tables 5500000000 times broken_tracker old_server opened).db in
    (h : Container (Persister Tables)) × (persistent_main tables (pos 8) envs p ≡ inl h)
    × (get "database" h.health.world.tracker.event_ids ≡ some id_a)
persistent_main-keeps_event_example =
    persistent_main-keeps_event tables tables-IsReliable 5500000000 times broken_tracker old_server
      opened refl tt refl old_server-IsMap (pos 8) envs "database" id_a
      (broken_check database_example.0) (updater database_example.0) encodings-IsFaithfulTracker
      same_name old_database refl refl broken_tracker-held (λ name. uuid_a-IsUuid)
      broken_tracker-IsValid

abbrev old_files : Container Files
old_files =
    let h : Container Files = empty_container (pos 4) in
    record h {
      health = record h.health {
        checks = ("backend-service", broken_check backend_example.0) ∷ [];
      };
      persister = custom (some (file_persister directory tracker_json check_json));
    }

old_files-IsMap : IsMap old_files.health.checks
unfolding get
old_files-IsMap = (refl, tt)

old_backend : get "backend-service" old_files.health.checks ≡ some (broken_check backend_example.0)
unfolding get
old_backend = refl

backend-IsPlain : IsPlain "backend-service"
unfolding has_slash
backend-IsPlain = record { no_slash = refl; nonempty = refl }

custom_main-restores_example :
    let f =
      save_ticks
        ((5500000000, times, broken_tracker, old_files)
          ∷ (6500000000, times, broken_tracker, old_files)
          ∷ [])
        [] in
    (h : Container Files) × (custom_main directory tracker_json check_json (pos 8) envs f
      ≡ inl (f, h))
    × IsRestored (λ t. t) backend_example.0 h (updater backend_example.0)
custom_main-restores_example =
    custom_main-restores directory directory-IsReliable tracker_json check_json
      tracker_json-IsFaithful check_json-IsFaithful
      ((5500000000, times, broken_tracker, old_files) ∷ []) 6500000000 times broken_tracker
      old_files [] (pos 8) envs backend_example (broken_check backend_example.0)
      (updater backend_example.0) refl old_files-IsMap (backend-IsPlain, tt)
      (Memᴰ.tail (Memᴰ.head refl)) old_backend refl failed_error refl
