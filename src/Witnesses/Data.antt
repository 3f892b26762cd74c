-- ===== src/Witnesses/Data.antt =====
-- Concrete trackers and a check for the tests.
use health_go.Notifications.{new_notification_sender}
use health_go.Health.Container.{
  Container, noop, noop_provider, new, apply_options, load_tracker, with_maintenance_check_name,
}
use health_go.Health.Service.Options.{
  Setting, system_info, component, state_persister, maintenance_check_name, options_of,
}
use health_go.Base.Int.{pos}
use health_go.StatusUpdater.{Env}
use health_go.Check.{CheckConfig}
use health_go.Base.{String, true, false, none, some, [], ◌∷◌, ◌≡◌, refl, arith, List, ℕ, inl}
use health_go.Base.GoMap.{get, put, delete}
use health_go.Base.Text.{encode_to_string}
use health_go.Types.{critical}
use health_go.Events.{
  Uuid, EventTracker, new_event_tracker, get_or_create_event_id, set_maintenance_check_name,
  generate_short_uuid, restore_state,
}
use health_go.Events.Uuid.{IsUuid}
use health_go.Events.Invariant.{IsValid, get_or_create_event_id-IsValid, new-IsValid}

abbrev pub uuid_a : Uuid
uuid_a = 1 ∷ 2 ∷ 3 ∷ 4 ∷ 5 ∷ 6 ∷ 7 ∷ 8 ∷ 9 ∷ 10 ∷ 11 ∷ 12 ∷ 13 ∷ 14 ∷ 15 ∷ 16 ∷ []

abbrev pub uuid_b : Uuid
uuid_b = 160 ∷ 2 ∷ 3 ∷ 4 ∷ 5 ∷ 6 ∷ 7 ∷ 8 ∷ 9 ∷ 10 ∷ 11 ∷ 12 ∷ 13 ∷ 14 ∷ 15 ∷ 16 ∷ []

pub uuid_a-IsUuid : IsUuid uuid_a
uuid_a-IsUuid = record { sixteen = refl; bytes = omega arith }

pub uuid_b-IsUuid : IsUuid uuid_b
uuid_b-IsUuid = record { sixteen = refl; bytes = omega arith }

abbrev pub id_a : String
id_a = "0102030405060708"

pub new_tracker-IsValid : IsValid new_event_tracker
unfolding set_maintenance_check_name
new_tracker-IsValid = new-IsValid ""

-- the database check has failed
abbrev pub broken : EventTracker
broken = (get_or_create_event_id uuid_a "db" critical new_event_tracker).1

pub broken-IsValid : IsValid broken
broken-IsValid =
    get_or_create_event_id-IsValid uuid_a "db" critical uuid_a-IsUuid new_tracker-IsValid

pub broken-held : get "db" broken.event_ids ≡ some id_a
unfolding get put delete get_or_create_event_id generate_short_uuid encode_to_string
broken-held = refl

-- a check that becomes critical at its second failure
abbrev pub config : CheckConfig
config = record {
  name = "db";
  interval = pos 200000000;
  timeout = pos 0;
  skip_on_err = false;
  has_check = true;
  status = none;
  successes_before_passing = pos 0;
  failures_before_warning = pos 0;
  failures_before_critical = pos 2;
  success_action = none;
  warning_action = none;
  failure_action = none;
  timeout_action = none;
  notifiers = [];
  runtime = none;
}

abbrev pub env : Env
env = record { now = 1000; uuid = uuid_a }

-- the options of the examples, and a store that holds nothing
abbrev pub settings : List (Setting ℕ)
settings =
    system_info
    ∷ component (record { name = "shop"; version = "1.2" })
    ∷ state_persister noop
    ∷ maintenance_check_name "upgrade"
    ∷ []

abbrev pub made : Container ℕ
made = record {
  health = record {
    checks = [];
    world = record {
      tracker = record new_event_tracker { maintenance_check_name = "upgrade" };
      notifications = new_notification_sender 512;
      jobs = [];
    };
    loops = record { next_chan = 0; running = [] };
    system_info_enabled = true;
    max_concurrent = pos 4;
  };
  component = record { name = "shop"; version = "1.2" };
  persister = noop;
  tp = noop_provider;
  instrumentation_name = "";
}

pub settings-made : new (pos 4) (options_of settings) 0 ≡ inl made
unfolding new apply_options load_tracker with_maintenance_check_name set_maintenance_check_name
    restore_state
settings-made = refl
