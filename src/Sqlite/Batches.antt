-- ===== src/Sqlite/Batches.antt =====
-- persister/sqlite/sqlite.go: which states of checks reach the database, over the pending batch, the timer
-- and Close.
use health_go.Base.{
  String, false, Option, none, some, List, [], ◌∷◌, ◌≡◌, refl, ◌∙◌, ap, arith, ◌==◌, eq_iff,
  if◌then◌else◌, inl, inr, Sum-cases,
}
use health_go.Base.GoMap.{GoMap, get, get-put, IsMap, put-IsMap}
use health_go.Types.{Error, CheckState, EventTrackerState}
use health_go.Sqlite.{
  Database, Persister, CheckRow, TrackerRow, check_row, save_check, save_tracker, write_tracker,
  write_checks, flush_pending, fire, close, delete_check_state, tracker_row,
}

-- What a database that does not fail promises of its rows: an upsert sets the row of its key and no other, the
-- tracker's row is another, a delete removes the row, and rows outlast the connection.
pub record IsReliable {D : Type 0} (q : Database D) : Type 0 where
  pub upserted :
      (j k : String) (r : CheckRow) (d : D)
      → q.select_check j (q.upsert_check k r d).0
        ≡ (if k == j then (some r, none) else q.select_check j d)
  pub tracker_apart :
      (j : String) (r : TrackerRow q.Text) (d : D)
      → q.select_check j (q.upsert_tracker r d).0 ≡ q.select_check j d
  pub tracker_upserted :
      (r : TrackerRow q.Text) (d : D) → q.select_tracker (q.upsert_tracker r d).0 ≡ (some r, none)
  pub checks_apart :
      (k : String) (r : CheckRow) (d : D)
      → q.select_tracker (q.upsert_check k r d).0 ≡ q.select_tracker d
  pub tracker_durable : (d : D) → q.select_tracker (q.close_db d).0 ≡ q.select_tracker d
  pub deleted : (j : String) (d : D) → q.select_check j (q.delete_check j d).0 ≡ (none, none)
  pub durable : (j : String) (d : D) → q.select_check j (q.close_db d).0 ≡ q.select_check j d

pub data Command : Type 0 where
  save_event : EventTrackerState → Command
  save : String → CheckState → Command
  tick : Command

module _ {D : Type 0} (q : Database D) where
  unfoldable pub run : List Command → Persister D → Persister D
  run [] p = p
  run (save name state ∷ cs) p = run cs (save_check name state p).0
  run (tick ∷ cs) p = run cs (fire q p)
  run (save_event state ∷ cs) p = run cs (save_tracker state p).0

  -- the row that the next flush leaves under a name
  abbrev pub view : String → Persister D → Option CheckRow × Error
  view j p = elim (get j p.pending_check_states) [
    | none ↦ q.select_check j p.db
    | some state ↦ (some (check_row state), none)
  ]

-- the row of the last save under a name, or what was there
abbrev pub latest : String → List Command → Option CheckRow × Error → Option CheckRow × Error
latest j [] v = v
latest j (save k state ∷ cs) v = latest j cs (if k == j then (some (check_row state), none) else v)
latest j (tick ∷ cs) v = latest j cs v
latest j (save_event state ∷ cs) v = latest j cs v

module _ {D : Type 0} (q : Database D) (r : IsReliable q) (j : String) where
  pub write_tracker-select :
      (t : Option EventTrackerState) (d : D)
      → q.select_check j (write_tracker q t d) ≡ q.select_check j d
  unfolding write_tracker
  write_tracker-select none d = refl
  write_tracker-select (some state) d = elim (Sum-cases (tracker_row q.json state)) [
    | inl made ↦ rw (write_tracker, made.1) (r.tracker_apart j made.0 d)
    | inr failed ↦ rw (write_tracker, failed.1) refl
  ]

  pub write_checks-select :
      (m : GoMap CheckState) (d : D)
      → IsMap m
      → q.select_check j (write_checks q m d)
        ≡ elim (get j m) [ none ↦ q.select_check j d | some state ↦ (some (check_row state), none) ]
  unfolding write_checks get
  write_checks-select [] d u = refl
  write_checks-select ((k, state) ∷ m) d u =
      write_checks-select m _ u.1
      ∙ ground (arith, r.upserted j k (check_row state) d, eq_iff k j, u.0)

  batch-select :
      (p : Persister D)
      → IsMap p.pending_check_states
      → q.select_check j
          (write_checks q p.pending_check_states (write_tracker q p.pending_event_state p.db))
        ≡ view q j p
  batch-select p u =
      write_checks-select p.pending_check_states _ u
      ∙ ground (arith, write_tracker-select p.pending_event_state p.db)

  flush-select :
      (p : Persister D)
      → p.closed ≡ false
      → IsMap p.pending_check_states
      → q.select_check j (flush_pending q p).db ≡ view q j p
  unfolding flush_pending
  flush-select p opened u = rw opened (batch-select p u)

  save-view :
      (k : String) (state : CheckState) (p : Persister D)
      → view q j (save_check k state p).0
        ≡ (if k == j then (some (check_row state), none) else view q j p)
  unfolding save_check
  save-view k state p = ground (arith, get-put j k state p.pending_check_states)

  fire-view :
      (p : Persister D)
      → p.closed ≡ false
      → IsMap p.pending_check_states
      → view q j (fire q p) ≡ view q j p
  unfolding fire flush_pending get
  fire-view p opened u = flush-select (record p { timer = false }) opened u

  close-select :
      (p : Persister D)
      → p.closed ≡ false
      → IsMap p.pending_check_states
      → q.select_check j (close q p).0.db ≡ view q j p
  unfolding close
  close-select p opened u = rw opened (r.durable j _ ∙ batch-select p u)

  -- Whatever is saved, and whenever the timer fires, an open persister that is closed in the end leaves in
  -- the database for each check the row of its last save, or, if it was not saved, what was pending or
  -- stored before: no save is lost in a batch. The database does not fail, and no name is pending twice.
  pub closed-latest :
      (cs : List Command) (p : Persister D)
      → p.closed ≡ false
      → IsMap p.pending_check_states
      → q.select_check j (close q (run q cs p)).0.db ≡ latest j cs (view q j p)
  unfolding run save_check save_tracker fire flush_pending
  closed-latest [] p opened u = close-select p opened u
  closed-latest (save k state ∷ cs) p opened u =
      closed-latest cs _ opened (put-IsMap k state p.pending_check_states u)
      ∙ ap (latest j cs) (save-view k state p)
  closed-latest (tick ∷ cs) p opened u =
      closed-latest cs (fire q p) opened tt ∙ ap (latest j cs) (fire-view p opened u)
  closed-latest (save_event state ∷ cs) p opened u = closed-latest cs _ opened u

  -- A check that is deleted from an open persister while a state of it is pending is written again when
  -- the timer fires. The database does not fail, and no name is pending twice.
  pub deleted-returns :
      (state : CheckState) (p : Persister D)
      → p.closed ≡ false
      → IsMap p.pending_check_states
      → get j p.pending_check_states ≡ some state
      → q.select_check j (fire q (delete_check_state q j p).0).db ≡ (some (check_row state), none)
  unfolding delete_check_state fire
  deleted-returns state p opened u held =
      rw opened (write_checks-select p.pending_check_states _ u ∙ rw held refl)
