-- ===== src/Health/EarlyChecks.antt =====
-- health.go and options.go: the checks of `WithChecks` are registered while the options are applied, before New
-- restores the tracker.
use health_go.Base.{String, true, false, none, some, [], ◌∷◌, ◌≡◌, ◌∙◌, ap, refl, arith, ◌==◌, inl}
use health_go.Base.Int.{ℤ, pos, cmp_or}
use health_go.Actions.{new_action_runner}
use health_go.Base.GoMap.{GoMap, get, get-empty}
use health_go.Types.{Status, passing, eq_status, CheckNotification, CheckState, EventTrackerState}
use health_go.Events
use health_go.Events.{
  Uuid, new_event_tracker, generate_short_uuid, get_or_create_event_id, get_event_id,
}
use health_go.Notifications.{new_notification_sender, send}
use health_go.StatusUpdater.{
  StatusUpdater, World, Env, announce_restored, is_incident, restore_state, restore_fields,
  new_status_updater_internal, status_notification,
}
use health_go.Check.{CheckConfig}
use health_go.Health.{register, create_updater}
use health_go.Persister.{StatePersister}
use health_go.Health.Container.{
  Container, custom, new, with_state_persister, with_checks, register_check, set_tracker,
  load_tracker, apply_options, empty_container,
}

first_event :
    (uuid : Uuid) (name : String) (status : Status)
    → eq_status status passing ≡ false
    → (get_or_create_event_id uuid name status new_event_tracker).0 ≡ generate_short_uuid uuid
unfolding get_or_create_event_id
first_event uuid name status failing = ground (arith, get-empty {V = String} name)

abbrev fresh_world : World
fresh_world = record {
  tracker = new_event_tracker;
  notifications = new_notification_sender 512;
  jobs = [];
}

first_announcement :
    (env : Env) (state : CheckState) (u : StatusUpdater)
    → is_incident state.status ≡ true
    → u.tracked ≡ true
    → (n : CheckNotification) × ((announce_restored env state u fresh_world).notifications.channel
        ≡ n ∷ [])
      × (n.event_id ≡ generate_short_uuid env.uuid)
unfolding announce_restored new_notification_sender send status_notification
first_announcement env state u incident tracked =
    rw tracked (_, refl, first_event env.uuid u.actions.check_name state.status (ground arith))

module _ {S : Type 0} (p : StatePersister S) (env : Env) (c : CheckConfig) (cpus : ℤ) where
  abbrev base : Container S
  base = record (empty_container cpus) { persister = custom (some p) }

  restored : CheckState → StatusUpdater
  unfolding restore_fields new_status_updater_internal
  restored state = restore_fields state (
      new_status_updater_internal (cmp_or c.successes_before_passing (pos 3))
        (cmp_or c.failures_before_warning (pos 1)) (cmp_or c.failures_before_critical (pos 1))
        (new_action_runner c.name c.success_action c.warning_action c.failure_action
          c.timeout_action)
        c.notifiers true)

  register_early :
      (s : S) (state : CheckState)
      → (p.load_check_state c.name s).0 ≡ some state
      → is_incident state.status ≡ true
      → (c.name == "") ≡ false
      → ((register_check env c s base).1 ≡ none)
        × ((register_check env c s base).0.persister ≡ custom (some p))
        × ((register_check env c s base).0.health.world
            ≡ announce_restored env state (restored state) fresh_world)
  unfolding register_check register create_updater restore_state restore_fields
      new_status_updater_internal restored
  register_early s state loaded incident named =
      (rw (loaded, named, get-empty) refl, refl, rw (loaded, incident, named, get-empty) refl)

  restored_tracked : (state : CheckState) → (restored state).tracked ≡ true
  unfolding restored restore_fields new_status_updater_internal
  restored_tracked state = refl

  checks_early :
      (s : S)
      → (register_check env c s base).1 ≡ none
      → with_checks ((env, c) ∷ []) s base ≡ ((register_check env c s base).0, none)
  unfolding with_checks register_check
  checks_early s accepted = rw (with_checks, accepted) refl

  options_early :
      (s : S)
      → (register_check env c s base).1 ≡ none
      → apply_options
          (with_state_persister (custom (some p)) ∷ with_checks ((env, c) ∷ []) ∷ [])
          s
          (empty_container cpus)
        ≡ ((register_check env c s base).0, none)
  unfolding apply_options
  options_early s accepted =
      rw (apply_options, checks_early s accepted) (ap (λ x. (x.0, none)) (checks_early s accepted))

  new_early :
      (s : S)
      → (register_check env c s base).1 ≡ none
      → new cpus (with_state_persister (custom (some p)) ∷ with_checks ((env, c) ∷ []) ∷ []) s
        ≡ inl (load_tracker s (register_check env c s base).0)
  unfolding new
  new_early s accepted =
      rw (new, options_early s accepted)
        (ap (λ x. inl (load_tracker s x.0)) (options_early s accepted))

  loaded_early :
      (s : S) (saved : EventTrackerState) (h : Container S)
      → h.persister ≡ custom (some p)
      → p.load_event_tracker_state s ≡ (some saved, none)
      → load_tracker s h ≡ set_tracker (Events.restore_state (some saved) h.health.world.tracker) h
  unfolding load_tracker
  loaded_early s saved h kept tracker = rw (kept, tracker) refl

  -- With a persister and then a check as the options, where the persister holds an unhealthy state of
  -- the check and a tracker state with an event of the check, New announces the surviving incident under
  -- a new event ID, and then restores the tracker from the saved state: in it the check holds the saved
  -- ID.
  pub early_check-announces_new_event :
      (s : S) (state : CheckState) (saved : EventTrackerState) (ids : GoMap String) (id : String)
      → (p.load_check_state c.name s).0 ≡ some state
      → is_incident state.status ≡ true
      → p.load_event_tracker_state s ≡ (some saved, none)
      → saved.event_ids ≡ some ids
      → get c.name ids ≡ some id
      → (c.name == "") ≡ false
      → (h : Container S) × (n : CheckNotification) × (new cpus
            (with_state_persister (custom (some p)) ∷ with_checks ((env, c) ∷ []) ∷ [])
            s
          ≡ inl h)
        × (h.health.world.notifications.channel ≡ n ∷ [])
        × (n.event_id ≡ generate_short_uuid env.uuid)
        × (get_event_id c.name h.health.world.tracker ≡ id)
  unfolding get_event_id Events.restore_state
  early_check-announces_new_event s state saved ids id loaded incident tracker events held named =
      let (accepted, kept, world) = register_early s state loaded incident named in
      let (n, sent, event) =
        first_announcement env state (restored state) incident (restored_tracked state) in
      let at = loaded_early s saved (register_check env c s base).0 kept tracker in
      (
        _,
        n,
        new_early s accepted,
        rw at (ap (λ w. w.notifications.channel) world ∙ sent),
        event,
        rw at (rw events (rw held refl)),
      )
