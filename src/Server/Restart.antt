-- ===== src/Server/Restart.antt =====
-- _examples/server_with_persistence.go: what the server has after a restart.
use health_go.Base.{
  true, [], String, false, none, some, ◌∷◌, ◌≡◌, ◌≢◌, refl, sym, ap, ◌==◌, inl, List, ◌∙◌,
}
use health_go.Base.Int.{ℤ}
use health_go.Base.GoMap.{get, IsMap}
use health_go.Types.{Time}
use health_go.Events
use health_go.Events.{EventTracker, new_event_tracker}
use health_go.Events.Persistence
use health_go.StatusUpdater
use health_go.StatusUpdater.{StatusUpdater, Env, restore_state, restore_fields, get_state}
use health_go.Check.{CheckConfig}
use health_go.Health.Container
use health_go.Health.Restored.{TakesOver, register_check-TakesOver}
use health_go.Health.Container.{Container, custom, register_check, load_saved, operations}
use health_go.Sqlite.{Database, Persister, fresh, close, load_check, load_tracker}
use health_go.Sqlite.Batches.{IsReliable, save_event, run, Command}
use health_go.Sqlite.Rows.{whole_seconds, IsFaithfulTracker}
use health_go.Sqlite.Reopening.{check_in_seconds, reopened-check, reopened-tracker}
use health_go.StatusUpdater.{is_incident}
use health_go.Events.Uuid.{IsUuid}
use health_go.Events.Invariant.{IsValid}
use health_go.Health.Service.Surviving.{register-held}
use health_go.Server.{sqlite_persister, start, shut_down}
use health_go.Server.Saving.{saves, save_state-run, last_event-saves, last_saved-saves}

module _ {D : Type 0} (q : Database D) (r : IsReliable q) (now : Time) (times : String → Time)
    (tracker : EventTracker) (h : Container (Persister D)) (p : Persister D)
    (opened : p.closed ≡ false) (distinct : IsMap p.pending_check_states)
    (installed : h.persister ≡ custom (some (sqlite_persister q))) (m : IsMap h.health.checks) where
  abbrev reopened : Persister D
  reopened = fresh (shut_down q now times tracker h p).db

  abbrev saving : List Command
  saving = save_event (Events.get_state now tracker) ∷ saves times h.health.checks

  reopened-run : reopened ≡ fresh (close q (run q saving p)).0.db
  reopened-run = ap (λ s. fresh (close q s).0.db) (save_state-run q times now tracker h p installed)

  pub reopened-state :
      (j : String) (d : CheckConfig) (u : StatusUpdater)
      → get j h.health.checks ≡ some d
      → d.status ≡ some u
      → load_check q j reopened
        ≡ (some (check_in_seconds (StatusUpdater.get_state (times j) u)), none)
  reopened-state j d u held running =
      ap (load_check q j) reopened-run
      ∙ reopened-check q r saving p opened j (StatusUpdater.get_state (times j) u) distinct
          (last_saved-saves times j d u h.health.checks none m held running)

  reopened-event :
      IsFaithfulTracker q.json
      → load_tracker q reopened
        ≡ (some (record (Events.get_state now tracker) { updated_at = whole_seconds now }), none)
  unfolding Events.get_state
  reopened-event f =
      ap (load_tracker q) reopened-run
      ∙ reopened-tracker q r saving p opened f (Events.get_state now tracker)
          (last_event-saves times h.health.checks (some (Events.get_state now tracker)))

  -- the new process, before it registers a check
  abbrev pub Started : ℤ → Container (Persister D) → Type 0
  Started cpus h' =
      (start q cpus reopened ≡ inl h')
      × (h'.health.world.tracker ≡ tracker)
      × (h'.persister ≡ custom (some (sqlite_persister q)))
      × (h'.health.checks ≡ [])

  pub reopened-Started :
      (cpus : ℤ)
      → IsFaithfulTracker q.json
      → tracker.maintenance_check_name ≡ new_event_tracker.maintenance_check_name
      → (h' : Container (Persister D)) × Started cpus h'
  unfolding Container.new Events.get_state
  reopened-Started cpus f same =
      let loads_tracker = reopened-event f in
      (
        _,
        (
          refl,
          rw loads_tracker (
              Events.Persistence.tracker_round_trip (whole_seconds now) tracker new_event_tracker
                (sym same)),
          refl,
          refl,
        ),
      )

  -- After the shutdown, SaveState and then Close, a new process on the same database starts with
  -- the tracker that SaveState read: all events, their counters, and the maintenance. A check that it
  -- registers first, under the name of an old one, is accepted, takes over the status, error
  -- and counters that SaveState read, and the locks and cooldowns of the actions that both have, their times in whole
  -- seconds, and does not treat its next result as the first. The database does not fail, JSON encodes and
  -- decodes the maps of the tracker, the
  -- persister was open with no name pending twice, the old process had the default maintenance
  -- check name, the name of the check is not empty, and its error is not an empty message.
  pub server-restart :
      (cpus : ℤ) (env : Env) (c d : CheckConfig) (u : StatusUpdater)
      → IsFaithfulTracker q.json
      → tracker.maintenance_check_name ≡ new_event_tracker.maintenance_check_name
      → (c.name == "") ≡ false
      → get c.name h.health.checks ≡ some d
      → d.status ≡ some u
      → u.check.error ≢ some ""
      → (h' : Container (Persister D)) × (start q cpus reopened ≡ inl h')
        × (h'.health.world.tracker ≡ tracker)
        × TakesOver whole_seconds env c reopened h' u
  unfolding get_state get
  server-restart cpus env c d u f same has_name held running named =
      let (h', started) = reopened-Started cpus f same in
      let (began, same_tracker, installed', empty) = started in
      let loads = reopened-state c.name d u held running in
      (
        h',
        began,
        same_tracker,
        register_check-TakesOver (sqlite_persister q) env c reopened h' u (times c.name) _
            whole_seconds installed' (ap (λ x. x.0) loads) named has_name (rw empty refl),
      )

  -- A check that was unhealthy when SaveState read its state, and had an event when SaveState read the tracker, and
  -- that a new process on the same
  -- database registers first, keeps its event ID: the tracker holds for it the one of before the restart,
  -- and no new one. The old tracker was valid and had the default maintenance check name, the database does not
  -- fail, JSON encodes and decodes the maps of the tracker, the persister was open with no name pending twice, the name is not empty, and a UUID has
  -- sixteen bytes.
  pub server-keeps_event :
      (cpus : ℤ) (env : Env) (c d : CheckConfig) (u : StatusUpdater) (id : String)
      → IsFaithfulTracker q.json
      → tracker.maintenance_check_name ≡ new_event_tracker.maintenance_check_name
      → (c.name == "") ≡ false
      → get c.name h.health.checks ≡ some d
      → d.status ≡ some u
      → is_incident u.check.status ≡ true
      → get c.name tracker.event_ids ≡ some id
      → IsUuid env.uuid
      → IsValid tracker
      → (h' : Container (Persister D)) × (start q cpus reopened ≡ inl h')
        × (get c.name (register_check env c reopened h').0.health.world.tracker.event_ids ≡ some id)
  unfolding get_state get register_check
  server-keeps_event cpus env c d u id f same has_name held running incident own fed valid =
      let (h', started) = reopened-Started cpus f same in
      let (began, same_tracker, installed', empty) = started in
      let loads = reopened-state c.name d u held running in
      (
        h',
        began,
        register-held env c (check_in_seconds (StatusUpdater.get_state (times c.name) u))
            h'.health.world id incident (rw same_tracker own) fed (rw same_tracker valid)
            (load_saved (operations h'.persister) reopened) h'.health refl
            (rw installed' (ap (λ x. x.0) loads)) has_name (rw empty refl),
      )
