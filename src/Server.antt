-- ===== src/Server.antt =====
-- _examples/server_with_persistence.go: the start and the shutdown of a server that keeps its state
-- in SQLite. What serves in between is a container at work (Health/Service).
pub mod Saving
pub mod Restart
use health_go.Base.{String, Option, none, some, [], ◌∷◌, ◌⊎◌}
use health_go.Base.Int.{ℤ}
use health_go.Types.{Time}
use health_go.Events.{EventTracker}
use health_go.Sqlite
use health_go.Sqlite.{Database, Persister, close}
use health_go.Persister.{StatePersister}
use health_go.Health.Container
use health_go.Health.Container.{
  Container, OptionError, custom, with_system_info, with_state_persister, save_state,
}

module _ {D : Type 0} (q : Database D) where
  -- the methods of `Persister`
  abbrev pub sqlite_persister : StatePersister (Persister D)
  sqlite_persister = record {
    save_event_tracker_state = Sqlite.save_tracker;
    load_event_tracker_state = Sqlite.load_tracker q;
    save_check_state = Sqlite.save_check;
    load_check_state = Sqlite.load_check q;
    load_all_check_states = Sqlite.load_all_check_states q;
    delete_check_state = Sqlite.delete_check_state q;
    close = Sqlite.close q;
  }

  -- `New` of the server, with the persister that was opened
  abbrev pub start : ℤ → Persister D → Container (Persister D) ⊎ OptionError
  start cpus p =
      Container.new cpus
        (with_system_info ∷ with_state_persister (custom (some sqlite_persister)) ∷ []) p

  -- the signal handler saves, and `main` then closes the persister by its deferred call
  abbrev pub shut_down :
      Time → (String → Time) → EventTracker → Container (Persister D) → Persister D → Persister D
  shut_down now times tracker h p = (close q (save_state now times tracker h p)).0
