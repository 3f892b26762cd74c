-- ===== src/Health/Restart.antt =====
-- health.go, SaveState, New and Register: what a process that starts again finds.
use health_go.Base.{
  String, true, false, Option, none, some, [], ◌∷◌, ◌≡◌, ◌≢◌, refl, sym, ◌∙◌, ap, arith, ◌==◌,
  eq_iff, inl, inr, Bool-cases, if◌then◌else◌,
}
use health_go.Base.Int.{ℤ}
use health_go.Base.Lists.{All}
use health_go.Base.GoMap.{GoMap, get, IsMap}
use health_go.Types.{Time}
use health_go.Events
use health_go.Events.Persistence
use health_go.Events.{EventTracker, new_event_tracker, set_maintenance_check_name}
use health_go.StatusUpdater
use health_go.StatusUpdater.{StatusUpdater, Env, restore_state, restore_fields, get_state}
use health_go.Check.{CheckConfig}
use health_go.Actions
use health_go.Actions.Persistence.{runner_in-same}
use health_go.Health.Restored.{TakesOver, register_check-TakesOver}
use health_go.Persister.{StatePersister, IsReliable}
use health_go.Health.Container.{
  Container, custom, save_check, save_checks, save_state, new, with_state_persister,
  with_maintenance_check_name,
}

module _ {S : Type 0} (Names : String → Type 0) (p : StatePersister S) (r : IsReliable Names p)
    (times : String → Time) where
  abbrev AllNamed : GoMap CheckConfig → Type 0
  AllNamed = All (λ x. Names x.0)

  save_check-tracker :
      (now : Time) (k : String) (u : Option StatusUpdater) (s : S)
      → p.load_event_tracker_state (save_check p now k u s) ≡ p.load_event_tracker_state s
  unfolding save_check
  save_check-tracker now k none s = refl
  save_check-tracker now k (some u) s = r.tracker_kept k (StatusUpdater.get_state now u) s

  save_checks-tracker :
      (cs : GoMap CheckConfig) (s : S)
      → p.load_event_tracker_state (save_checks p times cs s) ≡ p.load_event_tracker_state s
  unfolding save_checks
  save_checks-tracker [] s = refl
  save_checks-tracker ((k, c) ∷ cs) s =
      save_checks-tracker cs _ ∙ save_check-tracker (times k) k c.status s

  save_check-load :
      (now : Time) (j k : String) (u : Option StatusUpdater) (s : S)
      → Names j
      → Names k
      → p.load_check_state j (save_check p now k u s) ≡ (
          if k == j
          then elim u [
            | none ↦ p.load_check_state j s
            | some u ↦ (some (StatusUpdater.get_state now u), none)
          ]
          else p.load_check_state j s)
  unfolding save_check
  save_check-load now j k none s named_j named_k = ground arith
  save_check-load now j k (some u) s named_j named_k =
      r.check_saved j k (StatusUpdater.get_state now u) s named_j named_k

  save_checks-other :
      (j : String) (cs : GoMap CheckConfig) (s : S)
      → get j cs ≡ none
      → Names j
      → AllNamed cs
      → p.load_check_state j (save_checks p times cs s) ≡ p.load_check_state j s
  unfolding save_checks get
  save_checks-other j [] s absent named all = refl
  save_checks-other j ((k, c) ∷ cs) s absent named all =
      save_checks-other j cs _ (ground arith) named all.1
      ∙ ground (arith, save_check-load (times k) j k c.status s named all.0)

  held_status :
      (j k : String) (c d : CheckConfig) (u : StatusUpdater) (cs : GoMap CheckConfig)
      → get j ((k, d) ∷ cs) ≡ some c
      → c.status ≡ some u
      → (k == j) ≡ true
      → d.status ≡ some u
  unfolding get
  held_status j k c d u cs held running e = ground arith

  save_checks-saved :
      (j : String) (c : CheckConfig) (u : StatusUpdater) (cs : GoMap CheckConfig) (s : S)
      → IsMap cs
      → get j cs ≡ some c
      → c.status ≡ some u
      → AllNamed cs
      → p.load_check_state j (save_checks p times cs s)
        ≡ (some (StatusUpdater.get_state (times j) u), none)
  unfolding save_checks get
  save_checks-saved j c u [] s m held running all = cc
  save_checks-saved j c u ((k, d) ∷ cs) s m held running all = elim (Bool-cases (k == j)) [
    | inl e ↦
        let named : Names j = rw (sym ((eq_iff k j).0 e)) all.0 in
        save_checks-other j cs _ (ground (arith, eq_iff k j, m.0)) named all.1
        ∙ save_check-load (times k) j k d.status s named all.0
        ∙ rw (e, held_status j k c d u cs held running e, (eq_iff k j).0 e) refl
    | inr e ↦ save_checks-saved j c u cs _ m.1 (ground arith) running all.1
  ]

  pub saved_state-tracker :
      (now : Time) (tracker : EventTracker) (h : Container S) (s : S)
      → h.persister ≡ custom (some p)
      → p.load_event_tracker_state (save_state now times tracker h s)
        ≡ (some (Events.get_state now tracker), none)
  unfolding save_state
  saved_state-tracker now tracker h s installed =
      rw installed
        (save_checks-tracker h.health.checks _ ∙ r.tracker_saved (Events.get_state now tracker) s)

  pub saved_state-check :
      (now : Time) (tracker : EventTracker) (h : Container S) (s : S) (j : String) (c : CheckConfig)
      (u : StatusUpdater)
      → h.persister ≡ custom (some p)
      → IsMap h.health.checks
      → get j h.health.checks ≡ some c
      → c.status ≡ some u
      → AllNamed h.health.checks
      → p.load_check_state j (save_state now times tracker h s)
        ≡ (some (StatusUpdater.get_state (times j) u), none)
  unfolding save_state
  saved_state-check now tracker h s j c u installed m held running all =
      rw installed (save_checks-saved j c u h.health.checks _ m held running all)

  named_tracker :
      (name : String)
      → (name == "") ≡ false
      → (set_maintenance_check_name name new_event_tracker).maintenance_check_name ≡ name
  unfolding set_maintenance_check_name
  named_tracker name named = rw named refl

  -- A new process with the same maintenance check name, which is not empty, and the same reliable
  -- persister starts with the tracker that SaveState of the old one saved: all events, their counters,
  -- and the maintenance.
  pub restart-tracker :
      (now : Time) (tracker : EventTracker) (cpus : ℤ) (h : Container S) (s : S)
      → h.persister ≡ custom (some p)
      → (tracker.maintenance_check_name == "") ≡ false
      → (h' : Container S) × (new cpus
            (with_maintenance_check_name tracker.maintenance_check_name
              ∷ with_state_persister (custom (some p))
              ∷ [])
            (save_state now times tracker h s)
          ≡ inl h')
        × (h'.health.world.tracker ≡ tracker)
  unfolding new with_maintenance_check_name
  restart-tracker now tracker cpus h s installed named = (
    _,
    refl,
    rw (saved_state-tracker now tracker h s installed) (
        Events.Persistence.tracker_round_trip now tracker _
          (named_tracker tracker.maintenance_check_name named)),
  )

  -- After SaveState to a reliable persister, a check that a new process registers under the name of a
  -- saved one is accepted, and takes over the saved status, error and counters, and the locks and cooldowns of
  -- the actions that both have; it does not treat its next result as the first. Its name is not
  -- empty or taken, the persister can hold the names of all checks, and the error is not an empty message.
  pub restart-check :
      (now : Time) (tracker : EventTracker) (h : Container S) (s : S) (d : CheckConfig)
      (u : StatusUpdater) (env : Env) (c : CheckConfig) (h' : Container S)
      → h.persister ≡ custom (some p)
      → IsMap h.health.checks
      → get c.name h.health.checks ≡ some d
      → d.status ≡ some u
      → All (λ x. Names x.0) h.health.checks
      → u.check.error ≢ some ""
      → h'.persister ≡ custom (some p)
      → (c.name == "") ≡ false
      → get c.name h'.health.checks ≡ none
      → TakesOver (λ t. t) env c (save_state now times tracker h s) h' u
  unfolding get_state
  restart-check now tracker h s d u env c h' installed m held running all named installed' has_name
        free =
      let found = saved_state-check now tracker h s c.name d u installed m held running all in
      let kept = runner_in-same (Actions.get_state u.actions) in
      register_check-TakesOver p env c _ h' u (times c.name) (times c.name) (λ t. t) installed'
        (ap (λ x. x.0) found
          ∙ ap (λ r. some (record (get_state (times c.name) u) { action_runner_state = some r }))
              (sym kept))
        named has_name free
