-- ===== src/StatusUpdater/Coherence.antt =====
-- status.go with events.go: the status of a check agrees with the tracker. A check is not passing just when the
-- tracker holds an event for it, and an update keeps it so.
use health_go.Base.{
  not, String, Bool, true, false, List, [], ◌∷◌, ◌≡◌, refl, ◌∙◌, ap, inl, inr, arith, ◌==◌, eq_refl,
  Bool-cases, is_some,
}
use health_go.Base.Lists.{All}
use health_go.Base.Int.{ℤ, inc, leb_ℤ}
use health_go.Base.GoMap.{get}
use health_go.Types.{Status, passing, warning, critical, timeout, eq_status, Error}
use health_go.Events.{Uuid, EventTracker, get_or_create_event_id, get_next_sequence, clear_sequence}
use health_go.Events.Operations.{Operation, report, number, release, apply, run, IsFed, run-IsValid}
use health_go.Events.Reports.{failure_attaches, recovery_detaches}
use health_go.StatusUpdater.{
  StatusUpdater, World, Env, update, update_failing, update_passing, cross, count_failure,
  count_success, event_id_of, notify_change, status_message,
}
use health_go.Check.{Outcome, response, expired, check, report_outcome}
use health_go.Events.Uuid.{IsUuid}
use health_go.Events.Invariant.{IsValid}
use health_go.StatusUpdater.Incident.{update-check_name}
use health_go.StatusUpdater.Tracking.{
  update-Touches, Touches, notify_change-Touches, act-Touches, release-Touches,
}

-- an operation that reports no status
abbrev pub IsQuiet : Operation → Type 0
IsQuiet (report uuid name status) = ⊥
IsQuiet _ = Unit

run-quiet :
    (ops : List Operation) (t : EventTracker)
    → All IsQuiet ops
    → (run ops t).event_ids ≡ t.event_ids
unfolding run apply get_next_sequence clear_sequence
run-quiet [] t quiet = refl
run-quiet (number id ∷ ops) t quiet = run-quiet ops _ quiet.1 ∙ ground arith
run-quiet (release id ∷ ops) t quiet = run-quiet ops _ quiet.1 ∙ ground arith
run-quiet (report uuid name status ∷ ops) t quiet = absurd quiet.0

pub Touches-quiet : {t u : EventTracker} → Touches IsQuiet t u → u.event_ids ≡ t.event_ids
Touches-quiet {t} touches =
    ap (λ (x : EventTracker). x.event_ids) touches.result
    ∙ run-quiet touches.operations t touches.allowed

-- the event IDs after a report
abbrev pub reported : Uuid → String → Status → EventTracker → EventTracker
reported uuid name status t = (get_or_create_event_id uuid name status t).1

cross-event_ids :
    (env : Env) (status : Status) (error : Error) (quiet : Bool) (s : StatusUpdater) (w : World)
    → s.tracked ≡ true
    → (cross env status error quiet s w).2.tracker.event_ids
      ≡ (reported env.uuid s.actions.check_name status w.tracker).event_ids
unfolding cross event_id_of
cross-event_ids env status error quiet s w tracked =
    let message = status_message status error in
    let (id, w₁) = event_id_of env status s w in
    let w₂ = notify_change env status quiet message id s w₁ in
    Touches-quiet (act-Touches IsQuiet (λ i. tt) status env.now message id s.actions w₂.tracker)
    ∙ Touches-quiet (notify_change-Touches IsQuiet (λ i. tt) env status s quiet message id w₁)
    ∙ rw tracked refl

-- What a report can do to a status and the event IDs: they are as before, or the check has the status of
-- the report and the event IDs are those after it.
pub data Effect (uuid : Uuid) (name : String) (old : Status) (t : EventTracker) (status : Status)
    (t' : EventTracker) : Type 0 where
  counted : (status ≡ old) → (t'.event_ids ≡ t.event_ids) → Effect uuid name old t status t'
  crossed :
      (t'.event_ids ≡ (reported uuid name status t).event_ids) → Effect uuid name old t status t'

module _ (env : Env) (error : Error) (quiet : Bool) where
  cross-Effect :
      (status old : Status) (s : StatusUpdater) (w : World)
      → s.tracked ≡ true
      → let (id, s', w') = cross env status error quiet s w in
        Effect env.uuid s.actions.check_name old w.tracker s'.check.status w'.tracker
  unfolding cross
  cross-Effect status old s w tracked = crossed (cross-event_ids env status error quiet s w tracked)

  update_failing-Effect :
      (threshold : ℤ) (status : Status) (s : StatusUpdater) (w : World)
      → s.tracked ≡ true
      → let (s', w') = update_failing threshold env status error quiet s w in
        Effect env.uuid s.actions.check_name s.check.status w.tracker s'.check.status w'.tracker
  unfolding update_failing count_failure
  update_failing-Effect threshold status s w tracked =
      elim (Bool-cases (leb_ℤ threshold (inc s.failures))) [
        | inl reached ↦ rw reached (cross-Effect status s.check.status (count_failure s) w tracked)
        | inr below ↦ rw below (counted refl refl)
      ]

  update_passing-Effect :
      (s : StatusUpdater) (w : World)
      → s.tracked ≡ true
      → let (s', w') = update_passing env error quiet s w in
        Effect env.uuid s.actions.check_name s.check.status w.tracker s'.check.status w'.tracker
  unfolding update_passing count_success
  update_passing-Effect s w tracked =
      let (id, s', w') = cross env passing error quiet (count_success s) w in
      elim (Bool-cases (leb_ℤ s.successes_before_passing (inc s.successes))) [
        | inl reached ↦ rw reached (
            crossed (
              Touches-quiet (release-Touches IsQuiet (λ i. tt) (λ i. tt) id (count_success s) w')
              ∙ cross-event_ids env passing error quiet (count_success s) w tracked))
        | inr below ↦ rw below (counted refl refl)
      ]

  pub update-Effect :
      (status : Status) (s : StatusUpdater) (w : World)
      → s.tracked ≡ true
      → let (s', w') = update env status error quiet s w in
        Effect env.uuid s.actions.check_name s.check.status w.tracker s'.check.status w'.tracker
  unfolding update
  update-Effect passing s w tracked = update_passing-Effect s w tracked
  update-Effect timeout s w tracked =
      update_failing-Effect s.failures_before_critical timeout s w tracked
  update-Effect warning s w tracked =
      update_failing-Effect s.failures_before_warning warning s w tracked
  update-Effect critical s w tracked =
      update_failing-Effect s.failures_before_critical critical s w tracked
  update-Effect _ s w tracked = counted refl refl

-- a check agrees with the tracker: it is passing just when the tracker holds no event for it
abbrev pub Agrees : String → Status → EventTracker → Type 0
Agrees name status t = eq_status status passing ≡ not (is_some (get name t.event_ids))

pub reported-Agrees :
    (uuid : Uuid) (name : String) (status : Status) (t : EventTracker)
    → Agrees name status (reported uuid name status t)
reported-Agrees uuid name status t = elim (Bool-cases (eq_status status passing)) [
  | inl healthy ↦
      ground (arith, (recovery_detaches uuid name status t healthy).1 name, eq_refl name)
  | inr failing ↦ ground (arith, failure_attaches uuid name status t failing name, eq_refl name)
]

pub reported-others :
    (uuid : Uuid) (name : String) (status : Status) (t : EventTracker) (j : String)
    → (name == j) ≡ false
    → get j (reported uuid name status t).event_ids ≡ get j t.event_ids
reported-others uuid name status t j other = elim (Bool-cases (eq_status status passing)) [
  | inl healthy ↦ rw ((recovery_detaches uuid name status t healthy).1 j, other) refl
  | inr failing ↦ rw (failure_attaches uuid name status t failing j, other) refl
]

module _ {uuid : Uuid} {name : String} {old status : Status} {t t' : EventTracker} where
  pub Effect-Agrees : Effect uuid name old t status t' → Agrees name old t → Agrees name status t'
  Effect-Agrees (counted same ids) agrees = rw (same, ids) agrees
  Effect-Agrees (crossed ids) agrees = rw ids (reported-Agrees uuid name status t)

  pub Effect-others :
      Effect uuid name old t status t'
      → (j : String) → (name == j) ≡ false
      → get j t'.event_ids ≡ get j t.event_ids
  Effect-others (counted same ids) j other = rw ids refl
  Effect-others (crossed ids) j other = rw ids (reported-others uuid name status t j other)

-- What one run leaves of a check with a tracker.
pub record Kept (env : Env) (s : StatusUpdater) (w : World) (p : StatusUpdater × World)
    : Type 0 where
  pub effect :
      Effect env.uuid s.actions.check_name s.check.status w.tracker p.0.check.status p.1.tracker
  pub named : p.0.actions.check_name ≡ s.actions.check_name
  pub tracked : p.0.tracked ≡ true
  pub valid : IsValid p.1.tracker

update-tracked :
    (env : Env) (status : Status) (error : Error) (quiet : Bool) (s : StatusUpdater) (w : World)
    → (update env status error quiet s w).0.tracked ≡ s.tracked
unfolding update
update-tracked env passing error quiet s w = ground arith
update-tracked env _ error quiet s w = ground arith

module _ (env : Env) (s : StatusUpdater) (w : World) (tracked : s.tracked ≡ true)
    (fed : IsUuid env.uuid) (valid : IsValid w.tracker) where
  update-Kept :
      (status : Status) (error : Error) (quiet : Bool)
      → Kept env s w (update env status error quiet s w)
  update-Kept status error quiet =
      let touches = update-Touches IsFed (λ i. tt) (λ i. tt) env status error quiet s w fed in
      record {
        effect = update-Effect env error quiet status s w tracked;
        named =
            update-check_name (record { env = env; status = status; error = error; quiet = quiet })
              status s w;
        tracked = update-tracked env status error quiet s w ∙ tracked;
        valid = rw touches.result (run-IsValid touches.operations touches.allowed valid);
      }

  pub check-Kept :
      (has_check skip_on_err : Bool) (outcome : Outcome)
      → Kept env s w (check env has_check skip_on_err outcome s w)
  unfolding check report_outcome
  check-Kept true skip_on_err (response res) = update-Kept _ res.error res.no_notification
  check-Kept true skip_on_err expired = update-Kept timeout _ false
  check-Kept false skip_on_err outcome = record {
    effect = counted refl refl;
    named = refl;
    tracked = tracked;
    valid = valid;
  }
