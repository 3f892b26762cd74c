-- ===== src/Health/Interleaved/Flight.antt =====
-- health.go and status.go: an update under way, while the updates of other checks go on.
use health_go.Base.{
  String, true, Option, none, some, List, ◌≡◌, refl, sym, ap, ◌∙◌, arith, inl, inr, Bool-cases,
  if◌then◌else◌,
}
use health_go.Base.Int.{ℤ}
use health_go.Base.Lists.{All}
use health_go.Base.GoMap.{get}
use health_go.Types.{Status, passing, eq_status}
use health_go.Events.{EventTracker}
use health_go.StatusUpdater.Coherence.{Agrees}
use health_go.StatusUpdater.Steps.{Phase, numbering, sending, acting}
use health_go.StatusUpdater.Steps.Coherent.{Knows, becoming, IsHeld}
use health_go.StatusUpdater.Steps.Interleaving.{Running, Reach}
use health_go.StatusUpdater.Steps.Agreement.{Reach-IsOrderly}
use health_go.Health.Service.{Event, serve}
use health_go.Health.Service.Serving.{IsUsual}
use health_go.Health.Service.Runs.{service-IsServing}
use health_go.Health.Container.{Container, new, operations}
use health_go.Health.Service.Options.{Setting, options_of, saved_tracker}
use health_go.Health.Interleaved.{system_of, registered_in}
use health_go.Health.Interleaved.Settled.{system_of-IsOrderly, none_of}

-- the status and the event ID of a notification or an action that is about to go out
abbrev pub in_hand : Phase → Option (Status × String)
in_hand (numbering status message id) = some (status, id)
in_hand (sending status message id n) = some (status, id)
in_hand (acting status message id) = some (status, id)
in_hand _ = none

-- the event that a check with a status holds
abbrev pub event_of : Status → String → Option String
event_of status id = if eq_status status passing then none else some id

in_hand-Knows :
    (name : String) (p : Phase) (old status : Status) (id : String) (t : EventTracker)
    → in_hand p ≡ some (status, id)
    → Knows name p old t
    → (status ≡ old) × IsHeld name status id t × (becoming p old ≡ old)
in_hand-Knows name (numbering status message id) old s i t e k =
    let es : status ≡ s = cc in
    let ei : id ≡ i = cc in (sym es ∙ k.0, λ failing. k.1 (rw es failing) ∙ ap some ei, refl)
in_hand-Knows name (sending status message id n) old s i t e k =
    let es : status ≡ s = cc in
    let ei : id ≡ i = cc in (sym es ∙ k.0, λ failing. k.1 (rw es failing) ∙ ap some ei, refl)
in_hand-Knows name (acting status message id) old s i t e k =
    let es : status ≡ s = cc in
    let ei : id ≡ i = cc in (sym es ∙ k.0, λ failing. k.1 (rw es failing) ∙ ap some ei, refl)
in_hand-Knows name _ old s i t e k = cc

-- The runs of the checks of a container that New returned, with any options but WithChecks and with no
-- saved state of the tracker, may overlap in any way once they are registered. When a notification of a check is
-- about to be numbered or sent, or its actions are about to be handled, the check shows the status that they are about,
-- and the tracker holds for it their event ID, or no event when it has recovered, whatever the updates of
-- the other checks have done since the ID was drawn. UUIDs have sixteen bytes, and a state that was saved for a
-- check is passing, warning, critical or timeout.
pub in_hand-event :
    {S : Type 0} (cpus : ℤ) (settings : List (Setting S)) (store : S) (h₀ : Container S)
    (es : List Event)
    → new cpus (options_of settings) store ≡ inl h₀
    → saved_tracker (operations h₀.persister) store ≡ none
    → All IsUsual es
    → let h = serve es h₀.health in
      (s : Running) (name : String) (status : Status) (id : String)
      → Reach (registered_in h) (system_of h) s
      → registered_in h name ≡ true
      → in_hand (s.phase name) ≡ some (status, id)
      → ((s.updater name).check.status ≡ status)
        × (get name s.world.tracker.event_ids ≡ event_of status id)
in_hand-event cpus settings store h₀ es made nothing usual s name status id reached here going =
    let h = serve es h₀.health in
    let serving = service-IsServing cpus settings store h₀ es made nothing usual in
    let o = Reach-IsOrderly (registered_in h) (system_of-IsOrderly h serving) reached in
    let c = o.coherent name here in
    let u = s.updater name in
    let (shown, held, become) =
      in_hand-Knows name (s.phase name) u.check.status status id s.world.tracker going c.knows in
    let agrees : Agrees name status s.world.tracker = rw (shown ∙ sym become) c.agrees in
    (
      sym shown,
      elim (Bool-cases (eq_status status passing)) [
        | inl healthy ↦
            rw healthy (none_of (get name s.world.tracker.event_ids) (ground (arith, agrees)))
        | inr failing ↦ rw failing (held failing)
      ],
    )
