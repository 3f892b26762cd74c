-- ===== src/Sqlite/Reopening.antt =====
-- persister/sqlite/sqlite.go: what a new persister on the same database loads.
use health_go.Base.{
  String, false, Option, none, some, List, [], ◌∷◌, ◌≡◌, refl, ◌∙◌, ap, ◌==◌, if◌then◌else◌, get_or,
  Bool-cases, inl, inr,
}
use health_go.Base.GoMap.{IsMap}
use health_go.Types.{Error, CheckState, EventTrackerState}
use health_go.Sqlite.{
  Database, Persister, CheckRow, TrackerRow, check_row, scan_check_state, close, load_check,
  load_tracker, fresh, no_runner, TrackerJson, scan_found,
}
use health_go.Sqlite.Rows.{
  check_row-scan, tracker_row-scan, runner_in_seconds, whole_seconds, IsFaithfulTracker,
  encoded_row,
}
use health_go.Sqlite.Batches.{
  IsReliable, Command, save, save_event, tick, run, view, latest, closed-latest,
}
use health_go.Sqlite.Trackers.{latest_tracker, tracker_view, closed-latest_tracker}

-- the last state that was saved for a check, after another one
abbrev pub last_saved : String → List Command → Option CheckState → Option CheckState
last_saved j [] v = v
last_saved j (save k state ∷ cs) v = last_saved j cs (if k == j then some state else v)
last_saved j (_ ∷ cs) v = last_saved j cs v

abbrev pub last_event : List Command → Option EventTrackerState → Option EventTrackerState
last_event [] v = v
last_event (save_event state ∷ cs) v = last_event cs (some state)
last_event (_ ∷ cs) v = last_event cs v

-- what is left of a state in a row
abbrev pub check_in_seconds : CheckState → CheckState
check_in_seconds state = record state {
  action_runner_state = some (runner_in_seconds (get_or state.action_runner_state no_runner));
  updated_at = whole_seconds state.updated_at;
}

row_of : Option CheckState → Option CheckRow × Error → Option CheckRow × Error
row_of none v = v
row_of (some state) v = (some (check_row state), none)

latest-saved :
    (j : String) (cs : List Command) (a : Option CheckState) (v : Option CheckRow × Error)
    → latest j cs (row_of a v) ≡ row_of (last_saved j cs a) v
unfolding row_of
latest-saved j [] a v = refl
latest-saved j (save k state ∷ cs) a v = elim (Bool-cases (k == j)) [
  | inl e ↦ rw e (latest-saved j cs (some state) v)
  | inr e ↦ rw e (latest-saved j cs a v)
]
latest-saved j (tick ∷ cs) a v = latest-saved j cs a v
latest-saved j (save_event state ∷ cs) a v = latest-saved j cs a v

event_row_of :
    {C : Type 0} (json : TrackerJson C)
    → IsFaithfulTracker json
    → Option EventTrackerState
    → Option (TrackerRow C) × Error
    → Option (TrackerRow C) × Error
event_row_of json f none v = v
event_row_of json f (some state) v = (some (encoded_row json f state), none)

latest-event :
    {D : Type 0} (q : Database D) (f : IsFaithfulTracker q.json) (cs : List Command)
    (a : Option EventTrackerState) (v : Option (TrackerRow q.Text) × Error)
    → latest_tracker q f cs (event_row_of q.json f a v) ≡ event_row_of q.json f (last_event cs a) v
unfolding event_row_of
latest-event q f [] a v = refl
latest-event q f (save k state ∷ cs) a v = latest-event q f cs a v
latest-event q f (tick ∷ cs) a v = latest-event q f cs a v
latest-event q f (save_event state ∷ cs) a v = latest-event q f cs (some state) v

module _ {D : Type 0} (q : Database D) where
  load_check-row :
      (j : String) (p : Persister D) {row : CheckRow}
      → p.closed ≡ false
      → q.select_check j p.db ≡ (some row, none)
      → load_check q j p ≡ (some (scan_check_state row), none)
  unfolding load_check
  load_check-row j p opened found =
      rw (opened, found)
        (ap
          (λ (x : Option CheckRow × Error).
            (elim x.0 [ none ↦ none | some r ↦ some (scan_check_state r) ], none))
          found)

  load_tracker-row :
      (p : Persister D) {row : TrackerRow q.Text}
      → p.closed ≡ false
      → q.select_tracker p.db ≡ (some row, none)
      → load_tracker q p ≡ scan_found q (some row)
  unfolding load_tracker
  load_tracker-row p opened found =
      rw (opened, found) (ap (λ (x : Option (TrackerRow q.Text) × Error). scan_found q x.0) found)

  scan_found-encoded :
      (f : IsFaithfulTracker q.json) (state : EventTrackerState)
      → scan_found q (some (encoded_row q.json f state))
        ≡ (some (record state { updated_at = whole_seconds state.updated_at }), none)
  unfolding scan_found
  scan_found-encoded f state = rw (scan_found, tracker_row-scan q.json f state) refl

module _ {D : Type 0} (q : Database D) (r : IsReliable q) (cs : List Command) (p : Persister D)
    (opened : p.closed ≡ false) where
  pub reopened-check :
      (j : String) (state : CheckState)
      → IsMap p.pending_check_states
      → last_saved j cs none ≡ some state
      → load_check q j (fresh (close q (run q cs p)).0.db) ≡ (some (check_in_seconds state), none)
  unfolding row_of
  reopened-check j state distinct saved =
      load_check-row q j (fresh (close q (run q cs p)).0.db) refl (
        closed-latest q r j cs p opened distinct
        ∙ latest-saved j cs none (view q j p)
        ∙ ap (λ s. row_of s (view q j p)) saved)
      ∙ ap (λ s. (some s, none)) (check_row-scan state)

  pub reopened-tracker :
      (f : IsFaithfulTracker q.json) (event : EventTrackerState)
      → last_event cs none ≡ some event
      → load_tracker q (fresh (close q (run q cs p)).0.db)
        ≡ (some (record event { updated_at = whole_seconds event.updated_at }), none)
  unfolding event_row_of
  reopened-tracker f event saved_event =
      let stored = tracker_view q f p.pending_event_state p.db in
      load_tracker-row q (fresh (close q (run q cs p)).0.db) refl (
        closed-latest_tracker q r f cs p opened
        ∙ latest-event q f cs none stored
        ∙ ap (λ s. event_row_of q.json f s stored) saved_event)
      ∙ scan_found-encoded q f event

-- After any sequence of saves and flushes of the timer, and then Close, each of which ends before
-- the next one begins, a new persister on the same database loads for a check the state that was saved
-- last, with its times in whole seconds, and in critical with no actions where it had no runner;
-- and so for the state of the tracker. The database does not fail, JSON encodes and decodes the maps of
-- the tracker, the persister was open, and no name was pending twice.
pub reopened-loads :
    {D : Type 0} (q : Database D) (r : IsReliable q) (f : IsFaithfulTracker q.json)
    (cs : List Command) (p : Persister D) (j : String) (state : CheckState)
    (event : EventTrackerState)
    → p.closed ≡ false
    → IsMap p.pending_check_states
    → last_saved j cs none ≡ some state
    → last_event cs none ≡ some event
    → let reopened = fresh (close q (run q cs p)).0.db in
      (load_check q j reopened ≡ (some (check_in_seconds state), none))
      × (load_tracker q reopened
          ≡ (some (record event { updated_at = whole_seconds event.updated_at }), none))
reopened-loads q r f cs p j state event opened distinct saved saved_event = (
  reopened-check q r cs p opened j state distinct saved,
  reopened-tracker q r cs p opened f event saved_event,
)
