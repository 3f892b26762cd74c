-- ===== src/StatusUpdater/Steps/Coherent.antt =====
-- status.go and events.go: what one step of an update keeps of its own check, and of the others.
use health_go.Base.{
  String, Bool, true, false, some, ◌≡◌, refl, ◌∙◌, ap, inl, inr, ◌==◌, eq_refl, Bool-cases, if_ind,
}
use health_go.Base.Int.{ℤ, leb_ℤ}
use health_go.Base.GoMap.{get}
use health_go.Types.{Status, passing, warning, critical, timeout, eq_status, Error, Time}
use health_go.Events.{EventTracker}
use health_go.Events.Operations.{Operation, number, release, IsFed, run-IsValid}
use health_go.Events.Uuid.{IsUuid}
use health_go.Events.Invariant.{IsValid, get_or_create_event_id-IsValid}
use health_go.Events.Reports.{failure_attaches}
use health_go.StatusUpdater.{
  StatusUpdater, World, Env, run_actions, event_id_of, next_sequence, act, count_failure,
  count_success,
}
use health_go.Actions.{ActionRunner, success, warn, failure, time_out}
use health_go.StatusUpdater.Tracking.{
  Touches, untouched, number-Touches, act-Touches, release-Touches,
}
use health_go.StatusUpdater.Coherence.{
  IsQuiet, Touches-quiet, Agrees, reported-Agrees, reported-others,
}
use health_go.StatusUpdater.Steps.{
  Phase, idle, reporting, showing, numbering, sending, acting, releasing, begin, advance, counted,
}

-- an event ID is the one that the tracker holds for a check that reported a failure
abbrev pub IsHeld : String → Status → String → EventTracker → Type 0
IsHeld name status id t = eq_status status passing ≡ false → get name t.event_ids ≡ some id

-- the status that the check is about to show, or shows
abbrev pub becoming : Phase → Status → Status
becoming (showing status err notify id) old = status
becoming _ old = old

-- what an update under way knows: it is about the status shown, and its event ID is held
abbrev pub Knows : String → Phase → Status → EventTracker → Type 0
Knows name (showing status err notify id) old t = IsHeld name status id t
Knows name (numbering status message id) old t = (status ≡ old) × IsHeld name status id t
Knows name (sending status message id n) old t = (status ≡ old) × IsHeld name status id t
Knows name (acting status message id) old t = (status ≡ old) × IsHeld name status id t
Knows name _ old t = Unit

-- A check, its update and the tracker fit together.
pub record IsCoherent (name : String) (p : Phase) (u : StatusUpdater) (t : EventTracker)
    : Type 0 where
  pub named : u.actions.check_name ≡ name
  pub tracked : u.tracked ≡ true
  pub agrees : Agrees name (becoming p u.check.status) t
  pub knows : Knows name p u.check.status t

-- only the event of the check itself matters
module _ (name : String) (t t' : EventTracker)
    (same : get name t'.event_ids ≡ get name t.event_ids) where
  Knows-kept : (p : Phase) (old : Status) → Knows name p old t → Knows name p old t'
  Knows-kept (showing status err notify id) old k = λ failing. same ∙ k failing
  Knows-kept (numbering status message id) old k = (k.0, λ failing. same ∙ k.1 failing)
  Knows-kept (sending status message id n) old k = (k.0, λ failing. same ∙ k.1 failing)
  Knows-kept (acting status message id) old k = (k.0, λ failing. same ∙ k.1 failing)
  Knows-kept _ old k = tt

  pub IsCoherent-kept :
      {p : Phase} {u : StatusUpdater} → IsCoherent name p u t → IsCoherent name p u t'
  IsCoherent-kept {p} {u} c = record {
    named = c.named;
    tracked = c.tracked;
    agrees = rw same c.agrees;
    knows = Knows-kept p u.check.status c.knows;
  }

-- the steps that report nothing
abbrev pub IsSilent : Phase → Type 0
IsSilent (reporting status err notify) = ⊥
IsSilent _ = Unit

pub advance-Touches :
    (P : Operation → Type 0) (numbers : (i : String) → P (number i))
    (releases : (i : String) → P (release i)) (env : Env) (p : Phase) (u : StatusUpdater)
    (w : World)
    → IsSilent p
    → Touches P w.tracker (advance env p u w).2.tracker
unfolding advance next_sequence run_actions
advance-Touches P numbers releases env idle u w silent = untouched w.tracker
advance-Touches P numbers releases env (reporting status err notify) u w silent = absurd silent
advance-Touches P numbers releases env (showing status err notify id) u w silent =
    untouched w.tracker
advance-Touches P numbers releases env (numbering status message id) u w silent =
    if_ind (λ (x : ℤ × World). Touches P w.tracker x.1.tracker) u.tracked
      (number-Touches P numbers id w.tracker) (untouched w.tracker)
advance-Touches P numbers releases env (sending status message id n) u w silent =
    untouched w.tracker
advance-Touches P numbers releases env (acting status message id) u w silent =
    act-Touches P numbers status env.now message id u.actions w.tracker
advance-Touches P numbers releases env (releasing id) u w silent =
    release-Touches P numbers releases id u w

-- What a step of one check leaves.
pub record Kept (name : String) (w : World) (x : Phase × StatusUpdater × World) : Type 0 where
  pub own : IsCoherent name x.0 x.1 x.2.tracker
  pub valid : IsValid x.2.tracker
  pub others :
      (j : String) → (name == j) ≡ false → get j x.2.tracker.event_ids ≡ get j w.tracker.event_ids

-- a step that leaves the event IDs, with what it makes of the updater and the phase
silent-Kept :
    (name : String) (env : Env) (p : Phase) (u : StatusUpdater) (w : World)
    → IsSilent p
    → IsValid w.tracker
    → let (p', u', w') = advance env p u w in
      u'.actions.check_name ≡ name
      → u'.tracked ≡ true
      → Agrees name (becoming p' u'.check.status) w.tracker
      → Knows name p' u'.check.status w.tracker
      → Kept name w (p', u', w')
silent-Kept name env p u w silent valid named tracked agrees knows =
    let (p', u', w') = advance env p u w in
    let fed = advance-Touches IsFed (λ i. tt) (λ i. tt) env p u w silent in
    let ids = Touches-quiet (advance-Touches IsQuiet (λ i. tt) (λ i. tt) env p u w silent) in
    let before : IsCoherent name p' u' w.tracker = record {
      named = named;
      tracked = tracked;
      agrees = agrees;
      knows = knows;
    } in
    record {
      own = IsCoherent-kept name w.tracker w'.tracker (ap (get name) ids) before;
      valid = rw fed.result (run-IsValid fed.operations fed.allowed valid);
      others = λ j other. ap (get j) ids;
    }

reporting-Kept :
    (name : String) (env : Env) (status : Status) (err : Error) (notify : Bool) (u : StatusUpdater)
    (w : World)
    → IsUuid env.uuid
    → IsValid w.tracker
    → u.actions.check_name ≡ name
    → u.tracked ≡ true
    → Kept name w (advance env (reporting status err notify) u w)
unfolding advance event_id_of
reporting-Kept name env status err notify u w fed valid named tracked =
    rw (tracked, named)
      (record {
        own = record {
          named = refl;
          tracked = refl;
          agrees = reported-Agrees env.uuid name status w.tracker;
          knows = λ failing.
              failure_attaches env.uuid name status w.tracker failing name ∙ rw eq_refl refl;
        };
        valid = get_or_create_event_id-IsValid env.uuid name status fed valid;
        others = λ j other. reported-others env.uuid name status w.tracker j other;
      })

-- the handlers leave the name of the runner
act-check_name :
    (status : Status) (now : Time) (message id : String) (r : ActionRunner) (t : EventTracker)
    → (act status now message id r t).0.check_name ≡ r.check_name
unfolding act success warn failure time_out
act-check_name passing now message id r t = refl
act-check_name warning now message id r t = refl
act-check_name critical now message id r t = refl
act-check_name timeout now message id r t = refl
act-check_name _ now message id r t = refl

acting-Kept :
    (name : String) (env : Env) (status : Status) (message id : String) (u : StatusUpdater)
    (w : World)
    → IsValid w.tracker
    → IsCoherent name (acting status message id) u w.tracker
    → Kept name w (advance env (acting status message id) u w)
unfolding advance run_actions
acting-Kept name env passing message id u w valid c =
    silent-Kept name env (acting passing message id) u w tt valid
      (act-check_name passing env.now message id u.actions w.tracker ∙ c.named) c.tracked c.agrees
      tt
acting-Kept name env status message id u w valid c =
    silent-Kept name env (acting status message id) u w tt valid
      (act-check_name status env.now message id u.actions w.tracker ∙ c.named) c.tracked c.agrees tt

-- A step of a check keeps it coherent, the tracker valid, and the events of all other checks.
pub advance-Kept :
    (name : String) (env : Env) (p : Phase) (u : StatusUpdater) (w : World)
    → IsUuid env.uuid
    → IsValid w.tracker
    → IsCoherent name p u w.tracker
    → Kept name w (advance env p u w)
unfolding advance next_sequence
advance-Kept name env idle u w fed valid c =
    silent-Kept name env idle u w tt valid c.named c.tracked c.agrees tt
advance-Kept name env (reporting status err notify) u w fed valid c =
    reporting-Kept name env status err notify u w fed valid c.named c.tracked
advance-Kept name env (showing status err true id) u w fed valid c =
    silent-Kept name env (showing status err true id) u w tt valid c.named c.tracked c.agrees
      (refl, c.knows)
advance-Kept name env (showing status err false id) u w fed valid c =
    silent-Kept name env (showing status err false id) u w tt valid c.named c.tracked c.agrees
      (refl, c.knows)
advance-Kept name env (numbering status message id) u w fed valid c =
    silent-Kept name env (numbering status message id) u w tt valid c.named c.tracked c.agrees
      c.knows
advance-Kept name env (sending status message id n) u w fed valid c =
    silent-Kept name env (sending status message id n) u w tt valid c.named c.tracked c.agrees
      c.knows
advance-Kept name env (acting status message id) u w fed valid c =
    acting-Kept name env status message id u w valid c
advance-Kept name env (releasing id) u w fed valid c =
    silent-Kept name env (releasing id) u w tt valid c.named c.tracked c.agrees tt

counted-IsCoherent :
    (name : String) (threshold count : ℤ) (status : Status) (err : Error) (quiet : Bool)
    (u : StatusUpdater) (t : EventTracker)
    → IsCoherent name idle u t
    → let (p, u') = counted threshold count status err quiet u in IsCoherent name p u' t
counted-IsCoherent name threshold count status err quiet u t c =
    elim (Bool-cases (leb_ℤ threshold count)) [
      | inl reached ↦
          rw reached
            (record { named = c.named; tracked = c.tracked; agrees = c.agrees; knows = tt })
      | inr below ↦ rw below c
    ]

-- A run that begins an update counts its result, and changes nothing else of the check.
pub begin-IsCoherent :
    (name : String) (status : Status) (err : Error) (quiet : Bool) (u : StatusUpdater)
    (t : EventTracker)
    → IsCoherent name idle u t
    → let (p, u') = begin status err quiet u in IsCoherent name p u' t
unfolding begin count_failure count_success
begin-IsCoherent name timeout err quiet u t c =
    counted-IsCoherent name u.failures_before_critical (count_failure u).failures timeout err quiet
      (count_failure u) t
      (record { named = c.named; tracked = c.tracked; agrees = c.agrees; knows = tt })
begin-IsCoherent name passing err quiet u t c =
    counted-IsCoherent name u.successes_before_passing (count_success u).successes passing err quiet
      (count_success u) t
      (record { named = c.named; tracked = c.tracked; agrees = c.agrees; knows = tt })
begin-IsCoherent name warning err quiet u t c =
    counted-IsCoherent name u.failures_before_warning (count_failure u).failures warning err quiet
      (count_failure u) t
      (record { named = c.named; tracked = c.tracked; agrees = c.agrees; knows = tt })
begin-IsCoherent name critical err quiet u t c =
    counted-IsCoherent name u.failures_before_critical (count_failure u).failures critical err quiet
      (count_failure u) t
      (record { named = c.named; tracked = c.tracked; agrees = c.agrees; knows = tt })
begin-IsCoherent name _ err quiet u t c = c
