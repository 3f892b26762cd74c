-- ===== src/Sqlite/Steps.antt =====
-- persister/sqlite/sqlite.go: flushes and Close as their accesses to shared state. The pending batch
-- and the timer are guarded by debounceMu, the database and `closed` by mu; a flush takes the batch
-- under the one lock, and writes it under the other. Between the two any other call may come.
pub mod Alone
pub mod Races
pub mod Held
pub mod Kept
use health_go.Base.{
  String, Bool, true, false, Option, none, some, List, [], ◌∷◌, ◌++◌, ℕ, zero, suc, if◌then◌else◌,
}
use health_go.Base.GoMap.{GoMap}
use health_go.Types.{CheckState, EventTrackerState}
use health_go.Sqlite.{Database, Persister, save_check, save_tracker, write_checks, write_tracker}

-- what a flush takes of the pending states
abbrev pub Batch : Type 0
Batch = Option EventTrackerState × GoMap CheckState

-- where the callback of a timer, or a call of Close, stands: before it clears or stops the timer,
-- before it takes the batch, before it writes it, before Close closes the database. The Boolean tells
-- a flush of Close from one of the timer.
pub data FlushPhase : Type 0 where
  firing stopping : FlushPhase
  taking : Bool → FlushPhase
  holding : Bool → Batch → FlushPhase
  closing finished : FlushPhase

module _ {D : Type 0} (q : Database D) where
  -- the second half of `flushPending`: a batch is dropped if the persister is closed
  unfoldable pub write_batch : Batch → Persister D → Persister D
  write_batch (event_state, check_states) p = record p {
    db = if p.closed then p.db else write_checks q check_states (write_tracker q event_state p.db);
  }

  -- the end of `Close`
  unfoldable pub close_once : Persister D → Persister D
  close_once p = if p.closed then p else record p { closed = true; db = (q.close_db p.db).0 }

  -- the next critical section
  unfoldable pub next_section : FlushPhase → Persister D → FlushPhase × Persister D
  unfolding write_batch close_once
  next_section firing p = (taking false, record p { timer = false })
  next_section stopping p = (taking true, record p { timer = false })
  next_section (taking of_close) p = (
    holding of_close (p.pending_event_state, p.pending_check_states),
    record p { pending_event_state = none; pending_check_states = [] },
  )
  next_section (holding of_close batch) p =
      (if of_close then closing else finished, write_batch batch p)
  next_section closing p = (finished, close_once p)
  next_section finished p = (finished, p)

-- the persister, and the callbacks and calls of Close under way
pub record Flushing (D : Type 0) : Type 0 where
  pub persister : Persister D
  pub threads : List FlushPhase

-- a save, a callback that begins, a call of Close, or the next section of a thread. A callback may
-- begin at any time here: what holds of all these runs holds of those in which a timer was set.
pub data Access : Type 0 where
  saved : String → CheckState → Access
  saved_event : EventTrackerState → Access
  fired close_called : Access
  moved : ℕ → Access

module _ {D : Type 0} (q : Database D) where
  unfoldable pub move_thread : ℕ → List FlushPhase → Persister D → List FlushPhase × Persister D
  unfolding next_section
  move_thread n [] p = ([], p)
  move_thread zero (t ∷ ts) p = let (t', p') = next_section q t p in (t' ∷ ts, p')
  move_thread (suc n) (t ∷ ts) p = let (ts', p') = move_thread n ts p in (t ∷ ts', p')

  unfoldable pub access : Access → Flushing D → Flushing D
  unfolding move_thread
  access (saved name state) s = record s { persister = (save_check name state s.persister).0 }
  access (saved_event state) s = record s { persister = (save_tracker state s.persister).0 }
  access fired s = record s { threads = s.threads ++ firing ∷ [] }
  access close_called s = record s { threads = s.threads ++ stopping ∷ [] }
  access (moved n) s =
      let (ts, p) = move_thread n s.threads s.persister in record { persister = p; threads = ts }

  unfoldable pub accesses : List Access → Flushing D → Flushing D
  unfolding access
  accesses [] s = s
  accesses (a ∷ rest) s = accesses rest (access a s)
