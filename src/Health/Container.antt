-- ===== src/Health/Container.antt =====
-- health.go and options.go: New with its options, SaveState, and the container's methods that pass a
-- call on. `s` is the store of the persister.
use health_go.Base.{ℕ, String, true, false, Option, none, some, List, [], ◌∷◌, ◌⊎◌, inl, inr}
use health_go.Base.Int.{ℤ}
use health_go.Base.GoMap.{GoMap}
use health_go.Types.{Error, Time, CheckState, EventTrackerState}
use health_go.Events
use health_go.Events.{EventTracker, new_event_tracker, set_maintenance_check_name}
use health_go.Notifications.{new_notification_sender}
use health_go.StatusUpdater
use health_go.StatusUpdater.{StatusUpdater, Env}
use health_go.Check.{CheckConfig}
use health_go.Health.{Health, RegisterError, register}
use health_go.Persister.{StatePersister, noop_persister}

pub record Component : Type 0 where
  pub name : String
  pub version : String

-- `h.persister`: the no-op one, or another or nil
pub data Installed (S : Type 0) : Type 0 where
  noop : Installed S
  custom : Option (StatePersister S) → Installed S

-- `trace.TracerProvider`: the no-op one of package trace, or another, which is known by its identity
pub data TracerProvider : Type 0 where
  noop_provider : TracerProvider
  provider : ℕ → TracerProvider

-- the fields of `Health` that the options set, beside those of the record `Health`
pub record Container (S : Type 0) : Type 0 where
  pub health : Health
  pub component : Component
  pub persister : Installed S
  pub tp : TracerProvider
  pub instrumentation_name : String

-- "could not register check %q: %w"
abbrev pub OptionError : Type 0
OptionError = String × RegisterError

abbrev pub HealthOption : Type 0 → Type 0
HealthOption S = S → Container S → Container S × Option OptionError

-- an error of the persister is logged, and the state left alone
abbrev pub loaded_tracker : Option EventTrackerState × Error → Option EventTrackerState
loaded_tracker (state, none) = state
loaded_tracker (state, some e) = none

module _ {S : Type 0} where
  abbrev pub operations : Installed S → Option (StatePersister S)
  operations noop = some noop_persister
  operations (custom p) = p

  -- `Health.Persister`
  abbrev pub persister_of : Installed S → Option (StatePersister S)
  persister_of noop = none
  persister_of (custom p) = p

  -- what Register loads for a check; an error is logged, and the state that came with it is used
  abbrev pub load_saved : Option (StatePersister S) → S → String → Option CheckState
  load_saved none s name = none
  load_saved (some p) s name = (p.load_check_state name s).0

  unfoldable pub register_check :
      Env → CheckConfig → S → Container S → Container S × Option RegisterError
  register_check env c s h =
      let (health, e) = register env (load_saved (operations h.persister) s) c h.health in
      (record h { health = health }, e)

  -- stops at the first check that is refused; each registration has its own clock and UUID
  unfoldable pub with_checks : List (Env × CheckConfig) → HealthOption S
  unfolding register_check
  with_checks [] s h = (h, none)
  with_checks ((env, c) ∷ cs) s h =
      let (h', e) = register_check env c s h in
      let rest = with_checks cs s h' in elim e [ none ↦ rest | some e ↦ (h', some (c.name, e)) ]

  abbrev pub with_component : Component → HealthOption S
  with_component component s h = (record h { component = component }, none)

  abbrev pub with_tracer_provider : TracerProvider → String → HealthOption S
  with_tracer_provider tp instrumentation_name s h =
      (record h { tp = tp; instrumentation_name = instrumentation_name }, none)

  abbrev pub with_max_concurrent : ℤ → HealthOption S
  with_max_concurrent n s h = (record h { health = record h.health { max_concurrent = n } }, none)

  abbrev pub with_system_info : HealthOption S
  with_system_info s h =
      (record h { health = record h.health { system_info_enabled = true } }, none)

  abbrev pub set_tracker : EventTracker → Container S → Container S
  set_tracker t h = record h {
    health = record h.health { world = record h.health.world { tracker = t } };
  }

  unfoldable pub with_maintenance_check_name : String → HealthOption S
  with_maintenance_check_name name s h =
      (set_tracker (set_maintenance_check_name name h.health.world.tracker) h, none)

  abbrev pub with_state_persister : Installed S → HealthOption S
  with_state_persister p s h = (record h { persister = p }, none)

  unfoldable pub apply_options : List (HealthOption S) → HealthOption S
  apply_options [] s h = (h, none)
  apply_options (o ∷ os) s h =
      let (h', e) = o s h in
      let rest = apply_options os s h' in elim e [ none ↦ rest | some e ↦ (h', some e) ]

  unfoldable pub load_tracker : S → Container S → Container S
  load_tracker s h = elim (operations h.persister) [
    | none ↦ h
    | some p ↦
        set_tracker
          (Events.restore_state (loaded_tracker (p.load_event_tracker_state s))
            h.health.world.tracker)
          h
  ]

  -- the container before the options
  abbrev pub empty_container : ℤ → Container S
  empty_container cpus = record {
    health = record {
      checks = [];
      world = record {
        tracker = new_event_tracker;
        notifications = new_notification_sender 512;
        jobs = [];
      };
      loops = record { next_chan = 0; running = [] };
      system_info_enabled = false;
      max_concurrent = cpus;
    };
    component = record { name = ""; version = "" };
    persister = noop;
    tp = noop_provider;
    instrumentation_name = "";
  }

  -- `New`: the container, or the error of an option; `cpus` is `runtime.NumCPU()`
  unfoldable pub new : ℤ → List (HealthOption S) → S → Container S ⊎ OptionError
  unfolding apply_options load_tracker
  new cpus opts s =
      let (h, e) = apply_options opts s (empty_container cpus) in
      elim e [ none ↦ inl (load_tracker s h) | some e ↦ inr e ]

  -- one round of the loop of `SaveState`; `now` is the clock in `GetState`
  unfoldable pub save_check : StatePersister S → Time → String → Option StatusUpdater → S → S
  save_check p now name none s = s
  save_check p now name (some u) s = (p.save_check_state name (StatusUpdater.get_state now u) s).0

  unfoldable pub save_checks : StatePersister S → (String → Time) → GoMap CheckConfig → S → S
  unfolding save_check
  save_checks p times [] s = s
  save_checks p times ((name, c) ∷ cs) s =
      save_checks p times cs (save_check p (times name) name c.status s)

  -- `tracker` is the tracker as its state is read, and `h` has each check as its state is read, which
  -- is later, and at another moment for each
  unfoldable pub save_state : Time → (String → Time) → EventTracker → Container S → S → S
  unfolding save_checks
  save_state now times tracker h s = elim (operations h.persister) [
    | none ↦ s
    | some p ↦
        save_checks p times h.health.checks
          (p.save_event_tracker_state (Events.get_state now tracker) s).0
  ]
