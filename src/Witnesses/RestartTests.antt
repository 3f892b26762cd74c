-- ===== src/Witnesses/RestartTests.antt =====
-- health.go, options.go and persister.go: a persister that keeps everything in memory, and the
-- theorems on a restart at concrete inputs.
use health_go.Base.{String, true, false, Option, none, some, [], ◌∷◌, ◌≡◌, refl, inl, ◌≢◌, arith}
use health_go.Base.Int.{pos}
use health_go.Base.GoMap.{GoMap, get, put, delete, get-put, IsMap}
use health_go.Types.{Error, Time, critical, CheckNotification, EventTrackerState, CheckState}
use health_go.Events.{generate_short_uuid, get_event_id}
use health_go.StatusUpdater.{StatusUpdater}
use health_go.Persister.{StatePersister, IsReliable}
use health_go.Health.Container.{
  Container, custom, empty_container, new, save_state, with_state_persister, with_checks,
}
use health_go.Health.EarlyChecks.{early_check-announces_new_event}
use health_go.Witnesses.Data.{config, env, broken}

abbrev Memory : Type 0
Memory = Option EventTrackerState × GoMap CheckState

abbrev loaded : Option CheckState → Option CheckState × Error
loaded state = (state, none)

abbrev in_memory : StatePersister Memory
in_memory = record {
  save_event_tracker_state = λ state s. ((some state, s.1), none);
  load_event_tracker_state = λ s. (s.0, none);
  save_check_state = λ name state s. ((s.0, put name state s.1), none);
  load_check_state = λ name s. (get name s.1, none);
  load_all_check_states = λ s. (s.1, none);
  delete_check_state = λ name s. ((s.0, delete name s.1), none);
  close = λ s. (s, none);
}

-- any name will do
abbrev AnyName : String → Type 0
AnyName name = Unit

in_memory-IsReliable : IsReliable AnyName in_memory
in_memory-IsReliable = record {
  tracker_saved = λ state s. refl;
  check_saved = λ j k state s named_j named_k. ground (arith, get-put j k state s.1);
  checks_kept = λ j state s. refl;
  tracker_kept = λ k state s. refl;
}

abbrev pub failed : StatusUpdater
failed = record {
  check = record { status = critical; error = some "refused" };
  actions = record {
    check_name = "db";
    success_action = none;
    warning_action = none;
    failure_action = none;
    timeout_action = none;
    status = critical;
  };
  successes = pos 0;
  failures = pos 3;
  successes_before_passing = pos 3;
  failures_before_warning = pos 1;
  failures_before_critical = pos 2;
  initialized = true;
  notifiers = [];
  tracked = true;
}

abbrev installed : Container Memory
installed = record (empty_container (pos 4)) { persister = custom (some in_memory) }

-- the process before the restart
abbrev old : Container Memory
old = record installed {
  health = record installed.health {
    checks = ("db", record config { status = some failed }) ∷ [];
    world = record installed.health.world { tracker = broken };
  };
}

abbrev times : String → Time
times name = 7

-- the store after `SaveState`
abbrev saved : Memory
saved = save_state 5 times broken old (none, [])

old-IsMap : IsMap old.health.checks
unfolding get
old-IsMap = (refl, tt)

old_check : get "db" old.health.checks ≡ some (record config { status = some failed })
unfolding get
old_check = refl

free : get "db" installed.health.checks ≡ none
unfolding get
free = refl

pub failed_error : failed.check.error ≢ some ""
failed_error h = cc

abbrev tracker_state : EventTrackerState
tracker_state = record {
  event_ids = some (("db", "a1b2c3d4a1b2c3d4") ∷ []);
  sequences = some [];
  maintenance_event_id = "";
  maintenance_active = false;
  maintenance_checks = some [];
  updated_at = 5;
}

abbrev check_state : CheckState
check_state = record {
  successes = pos 0;
  failures = pos 3;
  pending_event_id = "";
  status = critical;
  error_msg = "refused";
  action_runner_state = none;
  updated_at = 5;
}

abbrev store : Memory
store = (some tracker_state, ("db", check_state) ∷ [])

stored_check : (in_memory.load_check_state "db" store).0 ≡ some check_state
unfolding get
stored_check = refl

abbrev stored_ids : GoMap String
stored_ids = ("db", "a1b2c3d4a1b2c3d4") ∷ []

stored_event : get "db" stored_ids ≡ some "a1b2c3d4a1b2c3d4"
unfolding get
stored_event = refl

early_check-announces_new_event_example :
    (h : Container Memory) × (n : CheckNotification) × (new
        (pos 8)
        (with_state_persister (custom (some in_memory)) ∷ with_checks ((env, config) ∷ []) ∷ [])
        store
      ≡ inl h)
    × (h.health.world.notifications.channel ≡ n ∷ [])
    × (n.event_id ≡ generate_short_uuid env.uuid)
    × (get_event_id "db" h.health.world.tracker ≡ "a1b2c3d4a1b2c3d4")
early_check-announces_new_event_example =
    early_check-announces_new_event in_memory env config (pos 8) store check_state tracker_state
      stored_ids "a1b2c3d4a1b2c3d4" stored_check refl refl refl stored_event refl
