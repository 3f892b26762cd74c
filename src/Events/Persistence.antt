-- ===== src/Events/Persistence.antt =====
-- events.go, GetState and RestoreState: what a save and a load of the tracker keep.
use health_go.Base.{some, ◌≡◌}
use health_go.Types.{Time}
use health_go.Events.{EventTracker, get_state, restore_state}

-- A tracker that is restored from the state of another one with the same maintenance check is equal
-- to that other tracker, whatever it held before.
pub tracker_round_trip :
    (now : Time) (t u : EventTracker)
    → u.maintenance_check_name ≡ t.maintenance_check_name
    → restore_state (some (get_state now t)) u ≡ t
unfolding restore_state get_state
tracker_round_trip now t u same = λ i. record {
  event_ids = t.event_ids;
  sequences = t.sequences;
  maintenance_check_name = same i;
  maintenance_event_id = t.maintenance_event_id;
  maintenance_active = t.maintenance_active;
  maintenance_checks = t.maintenance_checks;
}
