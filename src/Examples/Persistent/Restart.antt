-- ===== src/Examples/Persistent/Restart.antt =====
-- _examples/server_with_persistence.go: what main has after a restart.
use mathlib.Core.List.{Memᴰ}
use health_go.Base.{String, true, false, some, List, [], ◌∷◌, ◌≡◌, ◌≢◌, refl, ap, inl}
use health_go.Base.Int.{ℤ}
use health_go.Base.GoMap.{get, get-empty, IsMap}
use health_go.Types.{Time}
use health_go.StatusUpdater.{StatusUpdater, Env, get_state, is_incident}
use health_go.Check.{CheckConfig}
use health_go.Health.Container
use health_go.Persister.{StatePersister}
use health_go.Health.Container.{
  Container, custom, save_state, load_tracker, apply_options, empty_container, with_system_info,
  with_state_persister,
}
use health_go.Sqlite.{Database, Persister, fresh}
use health_go.Sqlite.Batches
use health_go.Sqlite.Rows.{whole_seconds, IsFaithfulTracker}
use health_go.Server.{sqlite_persister, shut_down}
use health_go.Server.Restart.{reopened-state, reopened-Started}
use health_go.Examples.{Example, register_all}
use health_go.Examples.Registering.{well_named, is_unused, IsFree}
use health_go.Examples.Restoring.{IsRestored, IsSaved, Restores, register_all-Restores, All-member}
use health_go.Sqlite.Reopening.{check_in_seconds}
use health_go.Events.{EventTracker, new_event_tracker}
use health_go.Events.Uuid.{IsUuid}
use health_go.Events.Invariant.{IsValid}
use health_go.Examples.Keeping.{register_all-keeps}
use health_go.Examples.Persistent.{persistent_main, persistent_checks}

persistent-well_named : well_named persistent_checks ≡ true
unfolding well_named is_unused
persistent-well_named = refl

-- a container that `New` makes with these options, and the checks that are then registered
module _ {S : Type 0} (p : StatePersister S) (cpus : ℤ) (s : S) where
  abbrev pub fresh_container : Container S
  fresh_container =
      let h : Container S = empty_container cpus in
      record h {
        health = record h.health { system_info_enabled = true };
        persister = custom (some p);
      }

  pub new-persistent :
      Container.new cpus (with_system_info ∷ with_state_persister (custom (some p)) ∷ []) s
      ≡ inl (load_tracker s fresh_container)
  unfolding Container.new apply_options
  new-persistent = refl

  nothing_registered : (es : List Example) → IsFree (load_tracker s fresh_container).health es
  unfolding load_tracker get
  nothing_registered [] = tt
  nothing_registered (e ∷ es) = (refl, nothing_registered es)

  pub member-IsRestored :
      (keep : Time → Time) (envs : String → Env) (es : List Example) (e : Example)
      (u : StatusUpdater)
      → well_named es ≡ true
      → Memᴰ e es
      → IsSaved p keep s e.0.name u
      → IsRestored keep e.0 (register_all envs es s (load_tracker s fresh_container)) u
  unfolding load_tracker
  member-IsRestored keep envs es e u named member saved =
      let h = load_tracker s fresh_container in
      All-member (Restores envs s p keep (register_all envs es s h)) es
        (register_all-Restores envs s p keep es h named refl (nothing_registered es)) member u saved

module _ {D : Type 0} (q : Database D) (r : Batches.IsReliable q) (now : Time)
    (times : String → Time) (tracker : EventTracker) (h : Container (Persister D)) (p : Persister D)
    (opened : p.closed ≡ false) (distinct : IsMap p.pending_check_states)
    (installed : h.persister ≡ custom (some (sqlite_persister q))) (m : IsMap h.health.checks) where
  -- After the shutdown of the server its program is run again on the same database. The new main
  -- comes up, and each of its three checks that the old process had takes over the old status, error and
  -- counters, and the locks and cooldowns of the actions that both have, their times in whole seconds.
  -- It does not treat its next result as the first. The database does not fail, the persister was
  -- open with no name pending twice, and the error of the check was not an empty message.
  pub persistent_main-restores :
      (cpus : ℤ) (envs : String → Env) (e : Example) (d : CheckConfig) (u : StatusUpdater)
      → Memᴰ e persistent_checks
      → get e.0.name h.health.checks ≡ some d
      → d.status ≡ some u
      → u.check.error ≢ some ""
      → let p' = fresh (shut_down q now times tracker h p).db in
        (h' : Container (Persister D)) × (persistent_main q cpus envs p' ≡ inl h')
        × IsRestored whole_seconds e.0 h' u
  unfolding persistent_main get_state
  persistent_main-restores cpus envs e d u member held running named =
      let p' = fresh (shut_down q now times tracker h p).db in
      let loads =
        reopened-state q r now times tracker h p opened distinct installed m e.0.name d u held
          running in
      (
        register_all envs persistent_checks p'
            (load_tracker p' (fresh_container (sqlite_persister q) cpus p')),
        rw (persistent_main, new-persistent (sqlite_persister q) cpus p') refl,
        member-IsRestored (sqlite_persister q) cpus p' whole_seconds envs persistent_checks e u
            persistent-well_named member
            (record {
              now = times e.0.name;
              updated = _;
              state = ap (λ x. x.0) loads;
              error = named;
            }),
      )

  no_checks :
      (h' : Container (Persister D)) (es : List Example)
      → h'.health.checks ≡ []
      → IsFree h'.health es
  no_checks h' [] empty = tt
  no_checks h' (e ∷ es) empty = (rw (empty, get-empty) refl, no_checks h' es empty)

  -- After the shutdown of the server its program is run again on the same database. Its new main
  -- registers all three checks, and then each check that was unhealthy when SaveState read its state has
  -- the event ID that the tracker had for it when SaveState read the tracker, which is before, and not a
  -- new one. That tracker had an event of the check. JSON encodes and decodes the maps of the tracker. The old tracker was valid and had the default maintenance check
  -- name, the database does not fail, the persister was open with no name pending twice, and UUIDs have
  -- sixteen bytes.
  pub persistent_main-keeps_event :
      (cpus : ℤ) (envs : String → Env) (name id : String) (d : CheckConfig) (u : StatusUpdater)
      → IsFaithfulTracker q.json
      → tracker.maintenance_check_name ≡ new_event_tracker.maintenance_check_name
      → get name h.health.checks ≡ some d
      → d.status ≡ some u
      → is_incident u.check.status ≡ true
      → get name tracker.event_ids ≡ some id
      → ((n : String) → IsUuid (envs n).uuid)
      → IsValid tracker
      → (h' : Container (Persister D)) × (persistent_main q cpus envs
            (fresh (shut_down q now times tracker h p).db)
          ≡ inl h')
        × (get name h'.health.world.tracker.event_ids ≡ some id)
  unfolding persistent_main get_state
  persistent_main-keeps_event cpus envs name id d u f same held running incident own fed valid =
      let p' = fresh (shut_down q now times tracker h p).db in
      let (h₁, begun) =
        reopened-Started q r now times tracker h p opened distinct installed m cpus f same in
      let (began, same_tracker, installed₁, empty) = begun in
      let loads =
        reopened-state q r now times tracker h p opened distinct installed m name d u held
          running in
      (
        register_all envs persistent_checks p' h₁,
        rw (persistent_main, began) refl,
        register_all-keeps envs fed p' (sqlite_persister q) name id
            (check_in_seconds (get_state (times name) u)) (ap (λ x. x.0) loads) incident
            persistent_checks h₁ persistent-well_named installed₁
            (no_checks h₁ persistent_checks empty) (rw same_tracker valid) (rw same_tracker own),
      )
