-- ===== src/Events.antt =====
-- events.go: the tracker that hands out event IDs and sequence numbers. An operation that locks
-- the mutex is one function from the state to a result and the new state. `uuid` is the value that
-- `uuid.New` (google/uuid) would return in the call.
pub mod Uuid
pub mod Invariant
pub mod Reports
pub mod Operations
pub mod Stability
pub mod Sequences
pub mod Persistence
use health_go.Base.{
  String, Bool, true, false, not, ◌&&◌, Option, none, some, List, [], ℕ, ◌==◌, if◌then◌else◌,
  get_or,
}
use health_go.Base.Int.{ℤ, pos, inc}
use health_go.Base.Lists.{take}
use health_go.Base.GoMap.{GoMap, get, put, delete, any_value}
use health_go.Base.Text.{encode_to_string}
use health_go.Types.{Status, passing, eq_status, Time, EventTrackerState}

-- `uuid.UUID`: sixteen bytes
abbrev pub Uuid : Type 0
Uuid = List ℕ

pub record EventTracker : Type 0 where
  pub event_ids : GoMap String
  pub sequences : GoMap ℤ
  pub maintenance_check_name : String
  pub maintenance_event_id : String
  pub maintenance_active : Bool
  pub maintenance_checks : GoMap Bool

abbrev pub default_maintenance_check_name : String
default_maintenance_check_name = "maintenance"

abbrev pub new_event_tracker : EventTracker
new_event_tracker = record {
  event_ids = [];
  sequences = [];
  maintenance_check_name = default_maintenance_check_name;
  maintenance_event_id = "";
  maintenance_active = false;
  maintenance_checks = [];
}

unfoldable pub set_maintenance_check_name : String → EventTracker → EventTracker
set_maintenance_check_name name t =
    if not (name == "") then record t { maintenance_check_name = name } else t

-- sixteen hex digits of the first eight bytes
unfoldable pub generate_short_uuid : Uuid → String
generate_short_uuid uuid = encode_to_string (take 8 uuid)

-- "Maintenance starting or continuing"
unfoldable pub enter_maintenance : Uuid → EventTracker → EventTracker
enter_maintenance uuid t =
    if not t.maintenance_active
    then record t {
      maintenance_event_id = generate_short_uuid uuid;
      maintenance_active = true;
      maintenance_checks = [];
    }
    else t

unfoldable pub handle_maintenance_check : Uuid → Bool → EventTracker → String × EventTracker
unfolding enter_maintenance
handle_maintenance_check uuid true t = (
  get_or (get t.maintenance_check_name t.event_ids) "",
  record t { maintenance_active = false; event_ids = delete t.maintenance_check_name t.event_ids },
)
handle_maintenance_check uuid false t =
    let t' = enter_maintenance uuid t in
    (
      t'.maintenance_event_id,
      record t' { event_ids = put t'.maintenance_check_name t'.maintenance_event_id t'.event_ids },
    )

unfoldable pub maybe_cleanup_maintenance_event : EventTracker → EventTracker
maybe_cleanup_maintenance_event t =
    if t.maintenance_active
    then t
    else if any_value (λ event_id. event_id == t.maintenance_event_id) t.event_ids
    then t
    else record t { maintenance_event_id = ""; maintenance_checks = [] }

-- the event ID of a new failure: the maintenance event's, or a new one
unfoldable pub assign_event_id : Uuid → String → EventTracker → String × EventTracker
assign_event_id uuid check_name t =
    if t.maintenance_active
    then (
      t.maintenance_event_id,
      record t { maintenance_checks = put check_name true t.maintenance_checks },
    )
    else if get_or (get check_name t.maintenance_checks) false && not (t.maintenance_event_id == "")
    then (t.maintenance_event_id, t)
    else (generate_short_uuid uuid, t)

-- a failing check keeps the event ID that it has
unfoldable pub fail_regular_check :
    Uuid → String → Option String → EventTracker → String × EventTracker
unfolding assign_event_id
fail_regular_check uuid check_name (some event_id) t = (event_id, t)
fail_regular_check uuid check_name none t =
    let (event_id, t') = assign_event_id uuid check_name t in
    (event_id, record t' { event_ids = put check_name event_id t'.event_ids })

unfoldable pub handle_regular_check : Uuid → String → Bool → EventTracker → String × EventTracker
unfolding maybe_cleanup_maintenance_event fail_regular_check
handle_regular_check uuid check_name true t =
    let event_id = get_or (get check_name t.event_ids) "" in
    let t' = record t {
      event_ids = delete check_name t.event_ids;
      maintenance_checks = delete check_name t.maintenance_checks;
    } in
    (
      event_id,
      if event_id == t'.maintenance_event_id && not t'.maintenance_active
          then maybe_cleanup_maintenance_event t'
          else t',
    )
handle_regular_check uuid check_name false t =
    fail_regular_check uuid check_name (get check_name t.event_ids) t

unfoldable pub get_or_create_event_id :
    Uuid → String → Status → EventTracker → String × EventTracker
unfolding handle_maintenance_check handle_regular_check
get_or_create_event_id uuid check_name status t =
    let is_healthy = eq_status status passing in
    if check_name == t.maintenance_check_name
    then handle_maintenance_check uuid is_healthy t
    else handle_regular_check uuid check_name is_healthy t

unfoldable pub get_event_id : String → EventTracker → String
get_event_id check_name t = get_or (get check_name t.event_ids) ""

unfoldable pub is_maintenance_active : EventTracker → Bool
is_maintenance_active t = t.maintenance_active

unfoldable pub get_maintenance_event_id : EventTracker → String
get_maintenance_event_id t = t.maintenance_event_id

unfoldable pub active_events : EventTracker → GoMap String
active_events t = t.event_ids

-- a missing counter reads 0; the counter is an `int` and wraps
unfoldable pub get_next_sequence : String → EventTracker → ℤ × EventTracker
get_next_sequence event_id t =
    let next = inc (get_or (get event_id t.sequences) (pos 0)) in
    if event_id == ""
    then (pos 0, t)
    else (next, record t { sequences = put event_id next t.sequences })

unfoldable pub clear_sequence : String → EventTracker → EventTracker
clear_sequence event_id t =
    if event_id == ""
    then t
    else if any_value (λ id. id == event_id) t.event_ids
    then t
    else record t { sequences = delete event_id t.sequences }

-- `maps.Clone` of a map that is not nil is a map that is not nil
unfoldable pub get_state : Time → EventTracker → EventTrackerState
get_state now t = record {
  event_ids = some t.event_ids;
  sequences = some t.sequences;
  maintenance_event_id = t.maintenance_event_id;
  maintenance_active = t.maintenance_active;
  maintenance_checks = some t.maintenance_checks;
  updated_at = now;
}

-- a nil map in the state leaves the tracker's own
unfoldable pub restore_state : Option EventTrackerState → EventTracker → EventTracker
restore_state none t = t
restore_state (some state) t = record t {
  event_ids = get_or state.event_ids t.event_ids;
  sequences = get_or state.sequences t.sequences;
  maintenance_event_id = state.maintenance_event_id;
  maintenance_active = state.maintenance_active;
  maintenance_checks = get_or state.maintenance_checks t.maintenance_checks;
}
