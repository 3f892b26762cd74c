-- ===== src/StatusUpdater/Tracking.antt =====
-- status.go and actions.go: what an update does to the shared tracker. It is a list of the tracker's own
-- operations: the report of the status, the numbers of the notification and of the action, and,
-- when the check recovers, the release of the event.
use health_go.Base.{
  not, String, Bool, true, Option, none, some, List, [], ◌∷◌, ◌++◌, ◌≡◌, refl, ◌∙◌, ap, sym, inl,
  inr, if_ind, Bool-cases,
}
use health_go.Base.Lists.{All}
use health_go.Base.Int.{ℤ, inc, leb_ℤ}
use health_go.Types.{Status, passing, warning, critical, timeout, eq_status, Error, Time, Action}
use health_go.Events.{EventTracker, get_next_sequence}
use health_go.Events.Operations.{Operation, report, number, release, apply, run}
use health_go.Actions.{ActionRunner, start, handle, unlock, Job, success, failure, warn, time_out}
use health_go.StatusUpdater.{
  StatusUpdater, World, Env, update, update_failing, cross, count_failure, count_success,
  event_id_of, notify_change, status_message, send_notification, release_event, act,
}

-- The second tracker comes from the first by operations that all satisfy `P`.
pub record Touches (P : Operation → Type 0) (t u : EventTracker) : Type 0 where
  pub operations : List Operation
  pub allowed : All P operations
  pub result : u ≡ run operations t

run-append : (xs ys : List Operation) (t : EventTracker) → run (xs ++ ys) t ≡ run ys (run xs t)
unfolding run
run-append [] ys t = refl
run-append (x ∷ xs) ys t = run-append xs ys (apply x t)

All-append :
    (P : Operation → Type 0) (xs ys : List Operation) → All P xs → All P ys → All P (xs ++ ys)
All-append P [] ys px py = py
All-append P (x ∷ xs) ys px py = (px.0, All-append P xs ys px.1 py)

module _ {P : Operation → Type 0} where
  pub untouched : (t : EventTracker) → Touches P t t
  unfolding run
  untouched t = record { operations = []; allowed = tt; result = refl }

  one : (op : Operation) (t : EventTracker) → P op → Touches P t (apply op t)
  unfolding run
  one op t p = record { operations = op ∷ []; allowed = (p, tt); result = refl }

  chain : {t u v : EventTracker} → Touches P t u → Touches P u v → Touches P t v
  chain {t} {u} {v} a b = record {
    operations = a.operations ++ b.operations;
    allowed = All-append P a.operations b.operations a.allowed b.allowed;
    result =
        b.result ∙ ap (run b.operations) a.result ∙ sym (run-append a.operations b.operations t);
  }

module _ (P : Operation → Type 0) (numbers : (i : String) → P (number i)) where
  pub number-Touches : (i : String) (t : EventTracker) → Touches P t (get_next_sequence i t).1
  unfolding apply
  number-Touches i t = one (number i) t (numbers i)

  start-Touches :
      (done name : String) (now : Time) (message id : String) (a : Action) (t : EventTracker)
      → Touches P t (start done name now message id a t).1
  unfolding start
  start-Touches done name now message id a t =
      if_ind (λ (x : Action × EventTracker × Option Job). Touches P t x.1) _
        (if_ind (λ (x : ℤ × EventTracker). Touches P t x.1) _ (number-Touches id t) (untouched t))
        (untouched t)

  handle-Touches :
      (target : Status) (ready : Bool) (done name : String) (now : Time) (message id : String)
      (a : Option Action) (status : Status) (t : EventTracker)
      → Touches P t (handle target ready done name now message id a status t).2
  unfolding handle
  handle-Touches target ready done name now message id none status t = untouched t
  handle-Touches target ready done name now message id (some a) status t =
      start-Touches done name now message id (unlock target ready now a status).0 t

  pub act-Touches :
      (status : Status) (now : Time) (message id : String) (r : ActionRunner) (t : EventTracker)
      → Touches P t (act status now message id r t).1
  unfolding act success warn failure time_out
  act-Touches passing now message id r t =
      handle-Touches passing (not (eq_status r.status passing)) "Finished running success action."
        r.check_name now message id r.success_action r.status t
  act-Touches warning now message id r t =
      handle-Touches warning true "Finished running warning action." r.check_name now message id
        r.warning_action r.status t
  act-Touches critical now message id r t =
      handle-Touches critical true "Finished running failure action." r.check_name now message id
        r.failure_action r.status t
  act-Touches timeout now message id r t =
      handle-Touches timeout true "Finished running timeout action." r.check_name now message id
        r.timeout_action r.status t
  act-Touches _ now message id r t = untouched t

  pub send-Touches :
      (env : Env) (status : Status) (message id : String) (tags : List String) (s : StatusUpdater)
      (w : World)
      → Touches P w.tracker (send_notification env status message id tags s w).tracker
  unfolding send_notification
  send-Touches env status message id tags s w =
      if_ind (λ (x : ℤ × World). Touches P w.tracker x.1.tracker) s.tracked
        (number-Touches id w.tracker) (untouched w.tracker)

  module _ (env : Env) (status : Status) (s : StatusUpdater) where
    event_id_of-Touches :
        (w : World)
        → P (report env.uuid s.actions.check_name status)
        → Touches P w.tracker (event_id_of env status s w).1.tracker
    unfolding event_id_of apply
    event_id_of-Touches w p =
        if_ind (λ (x : String × World). Touches P w.tracker x.1.tracker) s.tracked
          (one _ w.tracker p) (untouched w.tracker)

    pub notify_change-Touches :
        (quiet : Bool) (message id : String) (w : World)
        → Touches P w.tracker (notify_change env status quiet message id s w).tracker
    unfolding notify_change
    notify_change-Touches quiet message id w =
        if_ind (λ (x : World). Touches P w.tracker x.tracker) _
          (send-Touches env status message id [] s w) (untouched w.tracker)

    cross-Touches :
        (error : Error) (quiet : Bool) (w : World)
        → P (report env.uuid s.actions.check_name status)
        → Touches P w.tracker (cross env status error quiet s w).2.tracker
    unfolding cross
    cross-Touches error quiet w p =
        let message = status_message status error in
        let (id, w₁) = event_id_of env status s w in
        let w₂ = notify_change env status quiet message id s w₁ in
        chain (event_id_of-Touches w p) (
          chain (notify_change-Touches quiet message id w₁)
            (act-Touches status env.now message id s.actions w₂.tracker))

  update_failing-Touches :
      (env : Env) (status : Status) (s : StatusUpdater) (threshold : ℤ) (error : Error)
      (quiet : Bool) (w : World)
      → P (report env.uuid s.actions.check_name status)
      → Touches P w.tracker (update_failing threshold env status error quiet s w).1.tracker
  unfolding update_failing
  update_failing-Touches env status s threshold error quiet w p =
      elim (Bool-cases (leb_ℤ threshold (inc s.failures))) [
        | inl reached ↦ rw reached (cross-Touches env status (count_failure s) error quiet w p)
        | inr below ↦ rw below (untouched w.tracker)
      ]

  pub release-Touches :
      ((i : String) → P (release i))
      → (id : String) (s : StatusUpdater) (w : World)
      → Touches P w.tracker (release_event id s w).tracker
  unfolding release_event apply
  release-Touches releases id s w =
      if_ind (λ (x : World). Touches P w.tracker x.tracker) _
        (one (release id) w.tracker (releases id)) (untouched w.tracker)

  -- An update changes the shared tracker by nothing but the tracker's own operations: the report of its
  -- own status under its own name, numbers of some events, and releases of some events. So what holds of
  -- all lists of these operations holds under every interleaving of the updates of all checks.
  pub update-Touches :
      ((i : String) → P (release i))
      → (env : Env) (status : Status) (error : Error) (quiet : Bool) (s : StatusUpdater) (w : World)
      → P (report env.uuid s.actions.check_name status)
      → Touches P w.tracker (update env status error quiet s w).1.tracker
  unfolding update
  update-Touches releases env passing error quiet s w p =
      let s' = count_success s in
      let (id, s'', w') = cross env passing error quiet s' w in
      elim (Bool-cases (leb_ℤ s.successes_before_passing (inc s.successes))) [
        | inl reached ↦ rw reached (
            chain (cross-Touches env passing s' error quiet w p)
              (release-Touches releases id s' w'))
        | inr below ↦ rw below (untouched w.tracker)
      ]
  update-Touches releases env timeout error quiet s w p =
      update_failing-Touches env timeout s s.failures_before_critical error quiet w p
  update-Touches releases env warning error quiet s w p =
      update_failing-Touches env warning s s.failures_before_warning error quiet w p
  update-Touches releases env critical error quiet s w p =
      update_failing-Touches env critical s s.failures_before_critical error quiet w p
  update-Touches releases env _ error quiet s w p = untouched w.tracker
