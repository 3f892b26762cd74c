-- ===== src/Sqlite/Steps/Races.antt =====
-- persister/sqlite/sqlite.go: what a flush of the timer can lose, between its two halves.
use health_go.Base.{String, false, none, some, [], ◌∷◌, ◌≡◌, refl, ◌∙◌, List}
use health_go.Base.GoMap.{IsMap, get-put_same, put-IsMap, put}
use health_go.Types.{CheckState}
use health_go.Sqlite.{Database, Persister, check_row, save_check, write_checks, write_tracker}
use health_go.Sqlite.Batches.{IsReliable, write_checks-select}
use health_go.Sqlite.Steps.{
  Access, saved, fired, close_called, moved, Flushing, accesses, access, move_thread, next_section,
  write_batch, close_once, finished,
}

abbrev at_rest : {D : Type 0} → Persister D → Flushing D
at_rest p = record { persister = p; threads = [] }

-- a state is saved, and the callback of the timer takes it; Close runs, and then the callback goes on
abbrev pub overtaken : String → CheckState → List Access
overtaken name state =
    saved name state
    ∷ fired
    ∷ moved 0
    ∷ moved 0
    ∷ close_called
    ∷ moved 1
    ∷ moved 1
    ∷ moved 1
    ∷ moved 1
    ∷ moved 0
    ∷ []

-- the callback of the timer takes a state; a newer one is saved, taken by the next callback and
-- written, and then the first one goes on
abbrev pub reordered : String → CheckState → CheckState → List Access
reordered name state newer =
    saved name state
    ∷ fired
    ∷ moved 0
    ∷ moved 0
    ∷ saved name newer
    ∷ fired
    ∷ moved 1
    ∷ moved 1
    ∷ moved 1
    ∷ moved 0
    ∷ []

module _ {D : Type 0} (q : Database D) (r : IsReliable q) (p : Persister D)
    (opened : p.closed ≡ false) (name : String) where
  -- A state that was saved before Close is called can be lost, on a database that does not fail: if
  -- the callback of the timer has taken the batch and Close runs before it writes, then after both have
  -- ended nothing is pending, and the database has of the check what it had before the save.
  pub overtaken-drops :
      (state : CheckState)
      → let s = accesses q (overtaken name state) (record { persister = p; threads = [] }) in
        (s.threads ≡ finished ∷ finished ∷ [])
        × (s.persister.pending_check_states ≡ [])
        × (q.select_check name s.persister.db ≡ q.select_check name p.db)
  unfolding accesses access move_thread next_section write_batch close_once save_check write_checks
      write_tracker
  overtaken-drops state = (refl, rw opened refl, rw opened (r.durable name p.db))

  -- The database can end with an older state of a check than the one that was saved last, and with
  -- nothing pending: if the callback of the timer has taken the one, and a later callback takes the
  -- other and writes it first. The database does not fail, the persister is open, and no name was pending twice.
  pub reordered-keeps_older :
      (state newer : CheckState)
      → IsMap p.pending_check_states
      → let s = accesses q (reordered name state newer) (record { persister = p; threads = [] }) in
        (s.threads ≡ finished ∷ finished ∷ [])
        × (s.persister.pending_check_states ≡ [])
        × (q.select_check name s.persister.db ≡ (some (check_row state), none))
  unfolding accesses access move_thread next_section write_batch save_check
  reordered-keeps_older state newer distinct = (
    refl,
    refl,
    rw opened (
        write_checks-select q r name (put name state p.pending_check_states) _
          (put-IsMap name state p.pending_check_states distinct)
        ∙ rw (get-put_same name state p.pending_check_states) refl),
  )
