-- ===== src/Server/Saving.antt =====
-- health.go, SaveState, with persister/sqlite/sqlite.go: SaveState as a list of saves.
use health_go.Base.{
  String, true, false, Option, none, some, List, [], ◌∷◌, ◌≡◌, refl, ◌∙◌, ap, arith, ◌==◌, eq_iff,
  eq_refl, inl, inr, Bool-cases, Option-cases, if◌then◌else◌,
}
use health_go.Base.GoMap.{GoMap, get, IsMap}
use health_go.Types.{Time, CheckState, EventTrackerState}
use health_go.Events
use health_go.Events.{EventTracker}
use health_go.StatusUpdater
use health_go.StatusUpdater.{StatusUpdater}
use health_go.Check.{CheckConfig}
use health_go.Health.Container.{Container, custom, save_check, save_checks, save_state}
use health_go.Sqlite.{Database, Persister}
use health_go.Sqlite.Batches.{Command, save, save_event, run}
use health_go.Sqlite.Reopening.{last_saved, last_event}
use health_go.Server.{sqlite_persister}

abbrev pub saved : Time → String → Option StatusUpdater → List Command → List Command
saved now k none rest = rest
saved now k (some u) rest = save k (StatusUpdater.get_state now u) ∷ rest

abbrev pub saves : (String → Time) → GoMap CheckConfig → List Command
saves times [] = []
saves times ((k, c) ∷ cs) = saved (times k) k c.status (saves times cs)

module _ {D : Type 0} (q : Database D) (times : String → Time) where
  save_check-run :
      (now : Time) (k : String) (u : Option StatusUpdater) (rest : List Command) (p : Persister D)
      → run q (saved now k u rest) p ≡ run q rest (save_check (sqlite_persister q) now k u p)
  unfolding run save_check
  save_check-run now k none rest p = refl
  save_check-run now k (some u) rest p = refl

  save_checks-run :
      (cs : GoMap CheckConfig) (p : Persister D)
      → save_checks (sqlite_persister q) times cs p ≡ run q (saves times cs) p
  unfolding save_checks run
  save_checks-run [] p = refl
  save_checks-run ((k, c) ∷ cs) p =
      rw (save_check-run (times k) k c.status (saves times cs) p) (save_checks-run cs _)

  pub save_state-run :
      (now : Time) (tracker : EventTracker) (h : Container (Persister D)) (p : Persister D)
      → h.persister ≡ custom (some (sqlite_persister q))
      → save_state now times tracker h p
        ≡ run q (save_event (Events.get_state now tracker) ∷ saves times h.health.checks) p
  unfolding save_state run
  save_state-run now tracker h p installed = rw installed (save_checks-run h.health.checks _)

module _ (times : String → Time) where
  pub last_event-saves :
      (cs : GoMap CheckConfig) (v : Option EventTrackerState) → last_event (saves times cs) v ≡ v
  last_event-saves [] v = refl
  last_event-saves ((k, c) ∷ cs) v = elim (Option-cases c.status) [
    | inl e ↦ rw e (last_event-saves cs v)
    | inr e ↦ rw e.1 (last_event-saves cs v)
  ]

  last_saved-other :
      (now : Time) (j k : String) (u : Option StatusUpdater) (rest : List Command)
      (a : Option CheckState)
      → (k == j) ≡ false
      → last_saved j (saved now k u rest) a ≡ last_saved j rest a
  last_saved-other now j k none rest a other = refl
  last_saved-other now j k (some u) rest a other =
      ap (λ b. last_saved j rest (if b then some (StatusUpdater.get_state now u) else a)) other

  last_saved-same :
      (now : Time) (j k : String) (u : StatusUpdater) (rest : List Command) (a : Option CheckState)
      → (k == j) ≡ true
      → last_saved j (saved now k (some u) rest) a
        ≡ last_saved j rest (some (StatusUpdater.get_state now u))
  last_saved-same now j k u rest a same =
      ap (λ b. last_saved j rest (if b then some (StatusUpdater.get_state now u) else a)) same

  last_saved-absent :
      (j : String) (cs : GoMap CheckConfig) (a : Option CheckState)
      → get j cs ≡ none
      → last_saved j (saves times cs) a ≡ a
  unfolding get
  last_saved-absent j [] a absent = refl
  last_saved-absent j ((k, c) ∷ cs) a absent =
      let other : (k == j) ≡ false = ground arith in
      let rest : get j cs ≡ none = ground arith in
      last_saved-other (times k) j k c.status (saves times cs) a other
      ∙ last_saved-absent j cs a rest

  -- after the saves of all checks, the state of a check that has begun is the one saved last
  pub last_saved-saves :
      (j : String) (d : CheckConfig) (u : StatusUpdater) (cs : GoMap CheckConfig)
      (a : Option CheckState)
      → IsMap cs
      → get j cs ≡ some d
      → d.status ≡ some u
      → last_saved j (saves times cs) a ≡ some (StatusUpdater.get_state (times j) u)
  unfolding get
  last_saved-saves j d u [] a m held running = cc
  last_saved-saves j d u ((k, c) ∷ cs) a m held running = elim (Bool-cases (k == j)) [
    | inl e ↦
        let same : k ≡ j = (eq_iff k j).0 e in
        let begun : c.status ≡ some u = ground arith in
        rw (begun, same)
          (last_saved-same (times j) j j u (saves times cs) a (eq_refl j)
            ∙ last_saved-absent j cs _ (rw same at m.0))
    | inr e ↦
        last_saved-other (times k) j k c.status (saves times cs) a e
        ∙ last_saved-saves j d u cs a m.1 (ground arith) running
  ]
