-- ===== src/Sqlite/Trackers.antt =====
-- persister/sqlite/sqlite.go: which state of the tracker reaches the database.
use health_go.Sqlite.Rows.{IsFaithfulTracker, encoded_row, tracker_row-encoded}
use health_go.Base.{false, Option, none, some, List, [], ◌∷◌, ◌≡◌, refl, ◌∙◌, ap}
use health_go.Base.GoMap.{GoMap}
use health_go.Types.{Error, CheckState, EventTrackerState}
use health_go.Sqlite.{
  Database, Persister, TrackerRow, check_row, save_check, save_tracker, write_tracker, write_checks,
  flush_pending, fire, close,
}
use health_go.Sqlite.Batches.{IsReliable, Command, save, save_event, tick, run}

module _ {D : Type 0} (q : Database D) (f : IsFaithfulTracker q.json) where
  -- the row of the last save of the tracker, or what was there
  abbrev pub latest_tracker :
      List Command → Option (TrackerRow q.Text) × Error → Option (TrackerRow q.Text) × Error
  latest_tracker [] v = v
  latest_tracker (save name state ∷ cs) v = latest_tracker cs v
  latest_tracker (tick ∷ cs) v = latest_tracker cs v
  latest_tracker (save_event state ∷ cs) v =
      latest_tracker cs (some (encoded_row q.json f state), none)

  -- the row that a flush of this pending state leaves
  abbrev pub tracker_view : Option EventTrackerState → D → Option (TrackerRow q.Text) × Error
  tracker_view none d = q.select_tracker d
  tracker_view (some state) d = (some (encoded_row q.json f state), none)

module _ {D : Type 0} (q : Database D) (r : IsReliable q) (f : IsFaithfulTracker q.json) where
  write_tracker-tracker :
      (t : Option EventTrackerState) (d : D)
      → q.select_tracker (write_tracker q t d) ≡ tracker_view q f t d
  unfolding write_tracker
  write_tracker-tracker none d = refl
  write_tracker-tracker (some state) d =
      rw (write_tracker, tracker_row-encoded q.json f state)
        (r.tracker_upserted (encoded_row q.json f state) d)

  write_checks-tracker :
      (m : GoMap CheckState) (d : D) → q.select_tracker (write_checks q m d) ≡ q.select_tracker d
  unfolding write_checks
  write_checks-tracker [] d = refl
  write_checks-tracker ((k, state) ∷ m) d =
      write_checks-tracker m _ ∙ r.checks_apart k (check_row state) d

  flush-tracker :
      (p : Persister D)
      → p.closed ≡ false
      → q.select_tracker (flush_pending q p).db ≡ tracker_view q f p.pending_event_state p.db
  unfolding flush_pending
  flush-tracker p opened = rw opened (
      write_checks-tracker p.pending_check_states _
      ∙ write_tracker-tracker p.pending_event_state p.db)

  close-tracker :
      (p : Persister D)
      → p.closed ≡ false
      → q.select_tracker (close q p).0.db ≡ tracker_view q f p.pending_event_state p.db
  unfolding close flush_pending
  close-tracker p opened = rw opened (
      r.tracker_durable _
      ∙ write_checks-tracker p.pending_check_states _
      ∙ write_tracker-tracker p.pending_event_state p.db)

  -- Whatever is saved, and whenever the timer fires, an open persister that is closed in the end
  -- leaves in the database the row of the last saved state of the tracker, or, if none was saved,
  -- what was pending or stored before. The database does not fail, and JSON
  -- encodes and decodes the maps of the tracker.
  pub closed-latest_tracker :
      (cs : List Command) (p : Persister D)
      → p.closed ≡ false
      → q.select_tracker (close q (run q cs p)).0.db
        ≡ latest_tracker q f cs (tracker_view q f p.pending_event_state p.db)
  unfolding run save_check save_tracker fire flush_pending
  closed-latest_tracker [] p opened = close-tracker p opened
  closed-latest_tracker (save k state ∷ cs) p opened = closed-latest_tracker cs _ opened
  closed-latest_tracker (save_event state ∷ cs) p opened = closed-latest_tracker cs _ opened
  closed-latest_tracker (tick ∷ cs) p opened =
      closed-latest_tracker cs (fire q p) opened
      ∙ ap (latest_tracker q f cs) (flush-tracker (record p { timer = false }) opened)
