-- ===== src/Persister.antt =====
-- persister.go and persister_noop.go: the interface that saves states, over a store of type `S`, and the
-- persister that saves nothing. An operation returns the new store and an error.
use health_go.Base.{String, none, some, ◌≡◌, ◌==◌, if◌then◌else◌, Option, []}
use health_go.Base.GoMap.{GoMap, get}
use health_go.Types.{Error, EventTrackerState, CheckState}

pub record StatePersister (S : Type 0) : Type 0 where
  pub save_event_tracker_state : EventTrackerState → S → S × Error
  pub load_event_tracker_state : S → Option EventTrackerState × Error
  pub save_check_state : String → CheckState → S → S × Error
  pub load_check_state : String → S → Option CheckState × Error
  pub load_all_check_states : S → GoMap CheckState × Error
  pub delete_check_state : String → S → S × Error
  pub close : S → S × Error

-- What the interface promises of a store that does not fail, for checks with names that the
-- persister can hold: the state of the tracker and that of each check are loaded as they were saved
-- last, and do not touch each other.
pub record IsReliable {S : Type 0} (Names : String → Type 0) (p : StatePersister S) : Type 0 where
  pub tracker_saved :
      (state : EventTrackerState) (s : S)
      → p.load_event_tracker_state (p.save_event_tracker_state state s).0 ≡ (some state, none)
  pub check_saved :
      (j k : String) (state : CheckState) (s : S)
      → Names j
      → Names k
      → p.load_check_state j (p.save_check_state k state s).0
        ≡ (if k == j then (some state, none) else p.load_check_state j s)
  pub checks_kept :
      (j : String) (state : EventTrackerState) (s : S)
      → p.load_check_state j (p.save_event_tracker_state state s).0 ≡ p.load_check_state j s
  pub tracker_kept :
      (k : String) (state : CheckState) (s : S)
      → p.load_event_tracker_state (p.save_check_state k state s).0 ≡ p.load_event_tracker_state s

-- And what it promises of the other two operations: a state that is deleted is there no more, the
-- others and the tracker's are left, and the list has for each name what is loaded for it.
pub record IsComplete {S : Type 0} (Names : String → Type 0) (p : StatePersister S) : Type 0 where
  pub reliable : IsReliable Names p
  pub check_deleted :
      (j k : String) (s : S)
      → Names j
      → Names k
      → p.load_check_state j (p.delete_check_state k s).0
        ≡ (if k == j then (none, none) else p.load_check_state j s)
  pub tracker_left :
      (k : String) (s : S)
      → p.load_event_tracker_state (p.delete_check_state k s).0 ≡ p.load_event_tracker_state s
  pub all_listed : (s : S) → (p.load_all_check_states s).1 ≡ none
  pub all_loaded :
      (j : String) (s : S)
      → Names j
      → get j (p.load_all_check_states s).0 ≡ (p.load_check_state j s).0

abbrev pub noop_persister : {S : Type 0} → StatePersister S
noop_persister = record {
  save_event_tracker_state = λ state s. (s, none);
  load_event_tracker_state = λ s. (none, none);
  save_check_state = λ name state s. (s, none);
  load_check_state = λ name s. (none, none);
  load_all_check_states = λ s. ([], none);
  delete_check_state = λ name s. (s, none);
  close = λ s. (s, none);
}
