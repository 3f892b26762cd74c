-- ===== src/Examples/Persistent/Killed.antt =====
-- _examples/custom_persister.go: what main has after the process was killed.
use mathlib.Core.List.{Memᴰ}
use health_go.Base.{
  String, true, none, some, List, [], ◌∷◌, ◌++◌, ◌≡◌, ◌≢◌, refl, ◌∙◌, sym, ap, inl,
}
use health_go.Base.Int.{ℤ}
use health_go.Base.Lists.{All}
use health_go.Base.GoMap.{get, IsMap}
use health_go.Types.{Time, EventTrackerState, CheckState}
use health_go.Actions
use health_go.Events.{EventTracker}
use health_go.Actions.Persistence.{runner_in-same}
use health_go.StatusUpdater.{StatusUpdater, Env, get_state}
use health_go.Check.{CheckConfig}
use health_go.Persister.{StatePersister}
use health_go.Health.Container.{Container, custom, save_state, load_tracker}
use health_go.Health.Restart.{saved_state-check}
use health_go.FilePersister.{Directory, Json, file_persister, new_file_persister}
use health_go.FilePersister.Names.{IsPlain}
use health_go.FilePersister.Contract
use health_go.FilePersister.Contract.{IsFaithful, file_persister-IsReliable}
use health_go.Examples.{Example, register_all}
use health_go.Examples.Registering.{well_named, is_unused}
use health_go.Examples.Restoring.{IsRestored}
use health_go.Examples.Persistent.{custom_main, custom_checks, save_ticks}
use health_go.Examples.Persistent.Restart.{fresh_container, new-persistent, member-IsRestored}

custom-well_named : well_named custom_checks ≡ true
unfolding well_named is_unused
custom-well_named = refl

-- A save of the ticker is the last.
save_ticks-last :
    {S : Type 0} (ticks : List (Time × (String → Time) × EventTracker × Container S)) (now : Time)
    (times : String → Time) (tracker : EventTracker) (h : Container S) (s : S)
    → save_ticks (ticks ++ (now, times, tracker, h) ∷ []) s
      ≡ save_state now times tracker h (save_ticks ticks s)
unfolding save_ticks
save_ticks-last [] now times tracker h s = refl
save_ticks-last ((now', times', tracker', h') ∷ ticks) now times tracker h s =
    save_ticks-last ticks now times tracker h (save_state now' times' tracker' h' s)

module _ {F C : Type 0} (dir : Directory F C) (reliable : Contract.IsReliable dir)
    (tracker_json : Json C EventTrackerState) (check_json : Json C CheckState)
    (tracker_faithful : IsFaithful tracker_json) (check_faithful : IsFaithful check_json) where
  abbrev files : StatePersister F
  files = file_persister dir tracker_json check_json

  made_already : (f : F) → dir.mkdir_all f ≡ (f, none) → new_file_persister dir f ≡ inl f
  unfolding new_file_persister
  made_already f there =
      rw (new_file_persister, ap (λ x. x.1) there) (rw (ap (λ x. x.0) there) refl)

  -- The program with the file persister is killed some time after a save of its ticker, and run again. The
  -- new main comes up, and each of its two checks has the status, error and counters, and the locks
  -- and cooldowns of the actions that both have, as they were at that save, whatever earlier saves had
  -- written; it does not treat its next result as the first. The directory is there, and what is
  -- written to it is read again, JSON encodes and decodes the states, the names of the checks are not
  -- empty and have no slash, and the error of the check was not an empty message.
  pub custom_main-restores :
      (ticks : List (Time × (String → Time) × EventTracker × Container F)) (now : Time)
      (times : String → Time) (tracker : EventTracker) (h : Container F) (f : F) (cpus : ℤ)
      (envs : String → Env) (e : Example) (d : CheckConfig) (u : StatusUpdater)
      → h.persister ≡ custom (some (file_persister dir tracker_json check_json))
      → IsMap h.health.checks
      → All (λ x. IsPlain x.0) h.health.checks
      → Memᴰ e custom_checks
      → get e.0.name h.health.checks ≡ some d
      → d.status ≡ some u
      → u.check.error ≢ some ""
      → let f' = save_ticks (ticks ++ (now, times, tracker, h) ∷ []) f in
        dir.mkdir_all f' ≡ (f', none)
        → (h' : Container F) × (custom_main dir tracker_json check_json cpus envs f' ≡ inl (f', h'))
          × IsRestored (λ t. t) e.0 h' u
  unfolding custom_main get_state
  custom_main-restores ticks now times tracker h f cpus envs e d u installed m plain member held
        running named there =
      let f' = save_ticks (ticks ++ (now, times, tracker, h) ∷ []) f in
      let found =
        saved_state-check IsPlain files
          (file_persister-IsReliable dir reliable tracker_json check_json tracker_faithful
            check_faithful)
          times now tracker h (save_ticks ticks f) e.0.name d u installed m held running plain in
      let last = save_ticks-last ticks now times tracker h f in
      (
        register_all envs custom_checks f' (load_tracker f' (fresh_container files cpus f')),
        rw (custom_main, made_already f' there) (rw (new-persistent files cpus f') refl),
        member-IsRestored files cpus f' (λ t. t) envs custom_checks e u custom-well_named member
            (record {
              now = times e.0.name;
              updated = times e.0.name;
              state =
                  ap (λ x. (files.load_check_state e.0.name x).0) last
                  ∙ ap (λ x. x.0) found
                  ∙ ap
                      (λ r.
                        some
                          (record (get_state (times e.0.name) u) { action_runner_state = some r }))
                      (sym (runner_in-same (Actions.get_state u.actions)));
              error = named;
            }),
      )
