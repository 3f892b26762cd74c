-- ===== src/Health/Service/Surviving.antt =====
-- health.go, Register, with status.go and events.go: an incident that was saved keeps its event ID.
use health_go.Base.{
  String, Option, none, some, [], ◌∷◌, true, false, ◌≡◌, refl, ◌∙◌, ap, ◌==◌, eq_refl,
}
use health_go.Base.GoMap.{get}
use health_go.Types.{Status, passing, eq_status, CheckState}
use health_go.Actions.{new_action_runner}
use health_go.Events.{get_or_create_event_id}
use health_go.Events.Uuid.{IsUuid}
use health_go.Events.Invariant.{IsValid}
use health_go.Events.Reports.{failure_id, failure_attaches}
use health_go.StatusUpdater.{
  World, Env, is_incident, restore_state, restore_fields, new_status_updater_internal,
  announce_restored, status_message, saved_error,
}
use health_go.Check.{CheckConfig}
use health_go.Health.{Health, create_updater, register}
use health_go.Health.Service.Created.{announced, restored-check_name}

incident-failing : (s : Status) → is_incident s ≡ true → eq_status s passing ≡ false
incident-failing passing incident = cc
incident-failing _ incident = refl

module _ (env : Env) (c : CheckConfig) (state : CheckState) (w : World) (id : String)
    (incident : is_incident state.status ≡ true) (held : get c.name w.tracker.event_ids ≡ some id)
    (fed : IsUuid env.uuid) (valid : IsValid w.tracker) where
  reported-held :
      get c.name (get_or_create_event_id env.uuid c.name state.status w.tracker).1.event_ids
      ≡ some id
  reported-held =
      let failing : eq_status state.status passing ≡ false =
        incident-failing state.status incident in
      failure_attaches env.uuid c.name state.status w.tracker failing c.name
      ∙ rw (eq_refl c.name, failure_id env.uuid c.name state.status w.tracker valid failing, held)
          refl

  pub create_updater-held :
      get c.name (create_updater env c (some state) w).1.tracker.event_ids ≡ some id
  unfolding create_updater restore_state restore_fields new_status_updater_internal
      announce_restored new_action_runner
  create_updater-held =
      let u = (create_updater env c (some state) w).0 in
      let same : u.actions.check_name ≡ c.name = restored-check_name state.action_runner_state (
        new_action_runner c.name c.success_action c.warning_action c.failure_action
          c.timeout_action) in
      let told =
        announced env state.status state.status
          (status_message state.status (saved_error state.error_msg)) ("restored:true" ∷ []) u w
          refl fed valid in
      rw incident (ap (get c.name) told.ids ∙ rw same reported-held)

  pub register-held :
      (load : String → Option CheckState) (h : Health)
      → h.world ≡ w
      → load c.name ≡ some state
      → (c.name == "") ≡ false
      → get c.name h.checks ≡ none
      → get c.name (register env load c h).0.world.tracker.event_ids ≡ some id
  unfolding register
  register-held load h same loaded has_name free =
      rw (same, loaded, has_name, free) create_updater-held
