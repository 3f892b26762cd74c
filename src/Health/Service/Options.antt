-- ===== src/Health/Service/Options.antt =====
-- health.go and options.go: what New returns when its options register no check and its persister has
-- no state of the tracker.
use mathlib.Core.Path.{subst}
use health_go.Base.{
  String, none, some, Option, List, [], ◌∷◌, ◌≡◌, refl, sym, ap, ◌∙◌, ◌==◌, inl, Bool-cases,
  Option-cases, inr,
}
use health_go.Base.Int.{ℤ}
use health_go.Base.GoMap.{get}
use health_go.Types.{EventTrackerState}
use health_go.Events
use health_go.Events.{EventTracker, set_maintenance_check_name}
use health_go.Events.Invariant.{no_event-IsValid}
use health_go.Persister.{StatePersister}
use health_go.Health.Container.{
  Container, Component, TracerProvider, Installed, HealthOption, operations, loaded_tracker,
  empty_container, apply_options, load_tracker, new, with_component, with_tracer_provider,
  with_max_concurrent, with_system_info, with_maintenance_check_name, with_state_persister,
}
use health_go.Health.Service.Serving.{IsServing}

-- an option but WithChecks
pub data Setting (S : Type 0) : Type 0 where
  component : Component → Setting S
  tracer_provider : TracerProvider → String → Setting S
  max_concurrent : ℤ → Setting S
  system_info : Setting S
  maintenance_check_name : String → Setting S
  state_persister : Installed S → Setting S

module _ {S : Type 0} where
  abbrev pub option_of : Setting S → HealthOption S
  option_of (component c) = with_component c
  option_of (tracer_provider tp instrumentation_name) = with_tracer_provider tp instrumentation_name
  option_of (max_concurrent n) = with_max_concurrent n
  option_of system_info = with_system_info
  option_of (maintenance_check_name name) = with_maintenance_check_name name
  option_of (state_persister p) = with_state_persister p

  abbrev pub options_of : List (Setting S) → List (HealthOption S)
  options_of [] = []
  options_of (o ∷ os) = option_of o ∷ options_of os

  -- the state that New restores the tracker from
  abbrev pub saved_tracker : Option (StatePersister S) → S → Option EventTrackerState
  saved_tracker none s = none
  saved_tracker (some p) s = loaded_tracker (p.load_event_tracker_state s)

  -- nothing is registered, and the tracker is as new, whatever its maintenance check is called
  record IsFresh (h : Container S) : Type 0 where
    maintenance : String
    empty : h.health.checks ≡ []
    tracker :
        h.health.world.tracker
        ≡ record Events.new_event_tracker { maintenance_check_name = maintenance }

  renamed-IsFresh :
      (name : String) (s : S) (h : Container S)
      → IsFresh h
      → IsFresh (with_maintenance_check_name name s h).0
  unfolding with_maintenance_check_name set_maintenance_check_name
  renamed-IsFresh name s h fresh = elim (Bool-cases (name == "")) [
    | inl unnamed ↦ record {
      maintenance = fresh.maintenance;
      empty = fresh.empty;
      tracker = rw (unnamed, fresh.tracker) refl;
    }
    | inr named ↦ record {
      maintenance = name;
      empty = fresh.empty;
      tracker = rw (named, fresh.tracker) refl;
    }
  ]

  option-IsFresh :
      (o : Setting S) (s : S) (h : Container S)
      → IsFresh h
      → IsFresh (option_of o s h).0 × ((option_of o s h).1 ≡ none)
  unfolding with_maintenance_check_name
  option-IsFresh (component c) s h fresh = (
    record { maintenance = fresh.maintenance; empty = fresh.empty; tracker = fresh.tracker },
    refl,
  )
  option-IsFresh (tracer_provider tp n) s h fresh = (
    record { maintenance = fresh.maintenance; empty = fresh.empty; tracker = fresh.tracker },
    refl,
  )
  option-IsFresh (max_concurrent n) s h fresh = (
    record { maintenance = fresh.maintenance; empty = fresh.empty; tracker = fresh.tracker },
    refl,
  )
  option-IsFresh system_info s h fresh = (
    record { maintenance = fresh.maintenance; empty = fresh.empty; tracker = fresh.tracker },
    refl,
  )
  option-IsFresh (maintenance_check_name name) s h fresh = (renamed-IsFresh name s h fresh, refl)
  option-IsFresh (state_persister p) s h fresh = (
    record { maintenance = fresh.maintenance; empty = fresh.empty; tracker = fresh.tracker },
    refl,
  )

  options-IsFresh :
      (os : List (Setting S)) (s : S) (h : Container S)
      → IsFresh h
      → IsFresh (apply_options (options_of os) s h).0
        × ((apply_options (options_of os) s h).1 ≡ none)
  unfolding apply_options
  options-IsFresh [] s h fresh = (fresh, refl)
  options-IsFresh (o ∷ os) s h fresh =
      let (own, fine) = option-IsFresh o s h fresh in
      rw (apply_options, fine) (options-IsFresh os s (option_of o s h).0 own)

  load_tracker-persister : (s : S) (h : Container S) → (load_tracker s h).persister ≡ h.persister
  unfolding load_tracker
  load_tracker-persister s h = elim (Option-cases (operations h.persister)) [
    | inl absent ↦ rw (load_tracker, absent) refl
    | inr found ↦ rw (load_tracker, found.1) refl
  ]

  load_nothing :
      (s : S) (h : Container S)
      → saved_tracker (operations h.persister) s ≡ none
      → IsFresh h
      → IsFresh (load_tracker s h)
  unfolding load_tracker Events.restore_state
  load_nothing s h nothing fresh = elim (Option-cases (operations h.persister)) [
    | inl absent ↦ rw (load_tracker, absent) fresh
    | inr found ↦
        let (p, e) = found in
        let unsaved : loaded_tracker (p.load_event_tracker_state s) ≡ none = rw e at nothing in
        rw (load_tracker, e)
          (record {
            maintenance = fresh.maintenance;
            empty = fresh.empty;
            tracker = rw unsaved fresh.tracker;
          })
  ]

  fresh-IsServing : (h : Container S) → IsFresh h → IsServing h.health
  unfolding get
  fresh-IsServing h fresh = record {
    distinct = rw fresh.empty tt;
    valid = rw fresh.tracker (no_event-IsValid fresh.maintenance);
    entry = λ name c found. let missing = rw fresh.empty at found in cc;
    absent = λ name missing. rw fresh.tracker refl;
  }

  -- New with any options but WithChecks returns a container; it has no checks, and if its persister has no state of the
  -- tracker, or cannot load it, its tracker is valid and holds no event.
  pub new-IsServing :
      (cpus : ℤ) (os : List (Setting S)) (s : S) (h : Container S)
      → new cpus (options_of os) s ≡ inl h
      → saved_tracker (operations h.persister) s ≡ none
      → IsServing h.health
  unfolding new
  new-IsServing cpus os s h made nothing =
      let start : Container S = empty_container cpus in
      let h₁ = (apply_options (options_of os) s start).0 in
      let (fresh, fine) =
        options-IsFresh os s start
          (record { maintenance = "maintenance"; empty = refl; tracker = refl }) in
      let same : load_tracker s h₁ ≡ h = (let equal = rw (new, fine) at made in cc) in
      let unsaved : saved_tracker (operations h₁.persister) s ≡ none =
        ap (λ p. saved_tracker (operations p) s)
          (sym (load_tracker-persister s h₁) ∙ ap (λ x. x.persister) same)
        ∙ nothing in
      subst (λ x. IsServing x.health) same
        (fresh-IsServing (load_tracker s h₁) (load_nothing s h₁ unsaved fresh))
