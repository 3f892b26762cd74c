-- ===== src/Health/Service/Created.antt =====
-- health.go, Register, with status.go: the updater that a registration makes agrees with the tracker.
use health_go.Base.{
  String, Option, none, some, List, [], ◌∷◌, true, false, ◌≡◌, refl, sym, ◌∙◌, arith, ◌==◌, ◌||◌,
  Bool-cases, inl, inr,
}
use health_go.Actions
use health_go.Actions.{ActionRunner, new_action_runner}
use health_go.Base.GoMap.{get}
use health_go.Types.{
  Status, passing, critical, initializing, status_text, eq_status, CheckState, ActionRunnerState,
}
use health_go.Events.Uuid.{IsUuid}
use health_go.Events.Invariant.{IsValid, get_or_create_event_id-IsValid}
use health_go.Events.Operations.{IsFed, run-IsValid}
use health_go.StatusUpdater.{
  StatusUpdater, World, Env, is_incident, event_id_of, send_notification, restore_state,
  restore_fields, new_status_updater, new_status_updater_internal, announce_restored,
  status_message, saved_error,
}
use health_go.StatusUpdater.Tracking.{send-Touches}
use health_go.StatusUpdater.Coherence.{
  IsQuiet, Touches-quiet, reported, reported-Agrees, reported-others, Agrees,
}
use health_go.Check.{CheckConfig}
use health_go.Health.{create_updater}

-- no saved state, or one that is healthy or an incident
abbrev pub IsUsualState : Option CheckState → Type 0
IsUsualState none = Unit
IsUsualState (some state) = (eq_status state.status passing || is_incident state.status) ≡ true

-- the world after a report and its notification
pub record Announced (env : Env) (name : String) (status : Status) (w w' : World) : Type 0 where
  pub ids : w'.tracker.event_ids ≡ (reported env.uuid name status w.tracker).event_ids
  pub valid : IsValid w'.tracker

pub announced :
    (env : Env) (status shown : Status) (message : String) (tags : List String) (s : StatusUpdater)
    (w : World)
    → s.tracked ≡ true
    → IsUuid env.uuid
    → IsValid w.tracker
    → let (id, w₁) = event_id_of env status s w in
      Announced env s.actions.check_name status w (send_notification env shown message id tags s w₁)
unfolding event_id_of
announced env status shown message tags s w tracked fed valid =
    let (id, w₁) = event_id_of env status s w in
    let quiet = send-Touches IsQuiet (λ i. tt) env shown message id tags s w₁ in
    let touches = send-Touches IsFed (λ i. tt) env shown message id tags s w₁ in
    record {
      ids = Touches-quiet quiet ∙ rw tracked refl;
      valid = rw touches.result (
          run-IsValid touches.operations touches.allowed (
            rw tracked
              (get_or_create_event_id-IsValid env.uuid s.actions.check_name status fed valid)));
    }

-- an updater that is new in a world, and the world after it was made
pub record IsCreated (name : String) (w : World) (p : StatusUpdater × World) : Type 0 where
  pub same_name : p.0.actions.check_name ≡ name
  pub tracked : p.0.tracked ≡ true
  pub valid : IsValid p.1.tracker
  pub agrees : Agrees name p.0.check.status p.1.tracker
  pub others :
      (j : String) → (name == j) ≡ false → get j p.1.tracker.event_ids ≡ get j w.tracker.event_ids

Announced-IsCreated :
    {env : Env} {name : String} {w : World} (p : StatusUpdater × World)
    → p.0.actions.check_name ≡ name
    → p.0.tracked ≡ true
    → Announced env p.0.actions.check_name p.0.check.status w p.1
    → IsCreated name w p
Announced-IsCreated {env} {name} {w} p same tracked a = record {
  same_name = same;
  tracked = tracked;
  valid = a.valid;
  agrees =
      rw (sym same, a.ids)
        (reported-Agrees env.uuid p.0.actions.check_name p.0.check.status w.tracker);
  others = λ j other. rw a.ids (
      reported-others env.uuid p.0.actions.check_name p.0.check.status w.tracker j (rw same other));
}

pub restored-check_name :
    (state : Option ActionRunnerState) (r : ActionRunner)
    → (Actions.restore_state state r).check_name ≡ r.check_name
unfolding Actions.restore_state
restored-check_name none r = refl
restored-check_name (some state) r = refl

pub create_updater-IsCreated :
    (env : Env) (saved : Option CheckState) (c : CheckConfig) (w : World)
    → IsUuid env.uuid
    → IsUsualState saved
    → IsValid w.tracker
    → get c.name w.tracker.event_ids ≡ none
    → IsCreated c.name w (create_updater env c saved w)
unfolding create_updater restore_state restore_fields new_status_updater new_status_updater_internal
    announce_restored new_action_runner
create_updater-IsCreated env none c w fed usual valid fresh =
    let p = create_updater env c none w in
    Announced-IsCreated p refl refl
      (announced env critical initializing (status_text initializing) [] p.0 w refl fed valid)
create_updater-IsCreated env (some state) c w fed usual valid fresh =
    let u = (create_updater env c (some state) w).0 in
    let same : u.actions.check_name ≡ c.name = restored-check_name state.action_runner_state (
      new_action_runner c.name c.success_action c.warning_action c.failure_action
        c.timeout_action) in
    elim (Bool-cases (is_incident state.status)) [
      | inl incident ↦ rw incident (
          Announced-IsCreated (u, announce_restored env state u w) same refl
            (announced env state.status state.status
              (status_message state.status (saved_error state.error_msg)) ("restored:true" ∷ []) u w
              refl fed valid))
      | inr healthy ↦ rw healthy (record {
        same_name = same;
        tracked = refl;
        valid = valid;
        agrees = ground arith;
        others = λ j other. refl;
      })
    ]

-- the world after a registration: valid, with the events of the other names as they were
pub record IsApart (name : String) (w w' : World) : Type 0 where
  pub valid : IsValid w'.tracker
  pub others :
      (j : String) → (name == j) ≡ false → get j w'.tracker.event_ids ≡ get j w.tracker.event_ids

Announced-IsApart :
    {env : Env} {name own : String} {status : Status} {w w' : World}
    → own ≡ name
    → Announced env own status w w'
    → IsApart name w w'
Announced-IsApart {env} {name} {own} {status} {w} same a = record {
  valid = a.valid;
  others = λ j other. rw a.ids (reported-others env.uuid own status w.tracker j (rw same other));
}

pub create_updater-IsApart :
    (env : Env) (saved : Option CheckState) (c : CheckConfig) (w : World)
    → IsUuid env.uuid
    → IsValid w.tracker
    → IsApart c.name w (create_updater env c saved w).1
unfolding create_updater restore_state restore_fields new_status_updater new_status_updater_internal
    announce_restored new_action_runner
create_updater-IsApart env none c w fed valid =
    let p = create_updater env c none w in
    Announced-IsApart refl
      (announced env critical initializing (status_text initializing) [] p.0 w refl fed valid)
create_updater-IsApart env (some state) c w fed valid =
    let u = (create_updater env c (some state) w).0 in
    let same : u.actions.check_name ≡ c.name = restored-check_name state.action_runner_state (
      new_action_runner c.name c.success_action c.warning_action c.failure_action
        c.timeout_action) in
    elim (Bool-cases (is_incident state.status)) [
      | inl incident ↦ rw incident (
          Announced-IsApart same (
            announced env state.status state.status
              (status_message state.status (saved_error state.error_msg)) ("restored:true" ∷ []) u w
              refl fed valid))
      | inr healthy ↦ rw healthy (record { valid = valid; others = λ j other. refl })
    ]
