-- ===== src/Events/Invariant.antt =====
-- events.go: what holds of the tracker between two operations.
use health_go.Base.{
  String, Bool, true, false, none, some, ◌≡◌, refl, ◌==◌, arith, eq_iff, eq_refl, Bool-cases, inl,
  inr, if◌then◌else◌, if_ind, Option-cases,
}
use health_go.Base.GoMap.{
  GoMap, get, delete, IsMap, get-empty, get-put, get-delete, put-IsMap, delete-IsMap,
}
use health_go.Base.Int.{ℤ}
use health_go.Types.{Status}
use health_go.Events.{
  Uuid, EventTracker, new_event_tracker, set_maintenance_check_name, generate_short_uuid,
  handle_maintenance_check, handle_regular_check, maybe_cleanup_maintenance_event,
  fail_regular_check, assign_event_id, get_or_create_event_id, get_next_sequence, clear_sequence,
}
use health_go.Events.Uuid.{IsUuid, short_uuid_nonempty}

-- Every event ID is a text that is not empty; while maintenance is active the maintenance check holds
-- its event, and else it holds none; a check that is marked as failed during maintenance holds
-- the maintenance event.
pub record IsValid (t : EventTracker) : Type 0 where
  pub ids_map : IsMap t.event_ids
  pub ids_nonempty : (k id : String) → get k t.event_ids ≡ some id → (id == "") ≡ false
  pub maintenance_id : t.maintenance_active ≡ true → (t.maintenance_event_id == "") ≡ false
  pub own_event :
      get t.maintenance_check_name t.event_ids
      ≡ (if t.maintenance_active then some t.maintenance_event_id else none)
  pub own_unmarked : get t.maintenance_check_name t.maintenance_checks ≡ none
  pub marked :
      (k : String)
      → get k t.maintenance_checks ≡ some true
      → get k t.event_ids ≡ some t.maintenance_event_id

-- The invariant does not read the counters.
keep_ids : (t : EventTracker) (m : GoMap ℤ) → IsValid t → IsValid (record t { sequences = m })
keep_ids t m v = record {
  ids_map = v.ids_map;
  ids_nonempty = v.ids_nonempty;
  maintenance_id = v.maintenance_id;
  own_event = v.own_event;
  own_unmarked = v.own_unmarked;
  marked = v.marked;
}

pub no_event-IsValid :
    (name : String) → IsValid (record new_event_tracker { maintenance_check_name = name })
unfolding get
no_event-IsValid name = record {
  ids_map = tt;
  ids_nonempty = λ k id h. cc;
  maintenance_id = λ h. cc;
  own_event = refl;
  own_unmarked = refl;
  marked = λ k h. cc;
}

module _ (uuid : Uuid) (fresh : (generate_short_uuid uuid == "") ≡ false) where
  handle_maintenance_check-IsValid :
      (healthy : Bool) {t : EventTracker}
      → IsValid t
      → IsValid (handle_maintenance_check uuid healthy t).1
  unfolding handle_maintenance_check
  handle_maintenance_check-IsValid true {t} v = record {
    ids_map = delete-IsMap _ _ v.ids_map;
    ids_nonempty = λ k id h.
        ground (arith, get-delete k t.maintenance_check_name t.event_ids, v.ids_nonempty k id);
    maintenance_id = λ h. cc;
    own_event = rw (get-delete, eq_refl) refl;
    own_unmarked = v.own_unmarked;
    marked = λ k h. ground (
      arith,
      get-delete k t.maintenance_check_name t.event_ids,
      v.marked k,
      eq_iff t.maintenance_check_name k,
    );
  }
  handle_maintenance_check-IsValid false {t} v = record {
    ids_map = elim (Bool-cases t.maintenance_active) [
      | inl e ↦
          ground
            (arith, put-IsMap t.maintenance_check_name t.maintenance_event_id t.event_ids v.ids_map)
      | inr e ↦ ground (
        arith,
        put-IsMap t.maintenance_check_name (generate_short_uuid uuid) t.event_ids v.ids_map,
      )
    ];
    ids_nonempty = λ k id h. grind (arith, get-put, v.ids_nonempty);
    maintenance_id = λ h. ground arith;
    own_event = ground (
      arith,
      eq_refl t.maintenance_check_name,
      get-put t.maintenance_check_name t.maintenance_check_name t.maintenance_event_id t.event_ids,
      get-put t.maintenance_check_name t.maintenance_check_name (generate_short_uuid uuid)
          t.event_ids,
    );
    own_unmarked = ground (arith, v.own_unmarked, get-empty {V = Bool} t.maintenance_check_name);
    marked = λ k h. ground (
      arith,
      v.marked k,
      v.own_unmarked,
      get-empty {V = Bool} k,
      eq_iff t.maintenance_check_name k,
      get-put k t.maintenance_check_name t.maintenance_event_id t.event_ids,
    );
  }

maybe_cleanup-IsValid : {t : EventTracker} → IsValid t → IsValid (maybe_cleanup_maintenance_event t)
unfolding maybe_cleanup_maintenance_event
maybe_cleanup-IsValid {t} v = record {
  ids_map = ground (arith, v.ids_map);
  ids_nonempty = λ k id h. ground (arith, v.ids_nonempty k id);
  maintenance_id = λ h. ground arith;
  own_event = ground arith;
  own_unmarked = ground (arith, get-empty {V = Bool} t.maintenance_check_name);
  marked = λ k h. ground (arith, v.marked k, get-empty {V = Bool} k);
}

module _ (uuid : Uuid) (fresh : (generate_short_uuid uuid == "") ≡ false) (name : String) where
  recover-IsValid :
      {t : EventTracker}
      → IsValid t
      → (name == t.maintenance_check_name) ≡ false
      → IsValid (record t {
        event_ids = delete name t.event_ids;
        maintenance_checks = delete name t.maintenance_checks;
      })
  recover-IsValid {t} v other = record {
    ids_map = delete-IsMap name t.event_ids v.ids_map;
    ids_nonempty = λ k id h. ground (arith, v.ids_nonempty k id, get-delete k name t.event_ids);
    maintenance_id = v.maintenance_id;
    own_event = ground (arith, get-delete t.maintenance_check_name name t.event_ids);
    own_unmarked = ground (arith, get-delete t.maintenance_check_name name t.maintenance_checks);
    marked = λ k h.
        ground (
          arith,
          v.marked k,
          get-delete k name t.event_ids,
          get-delete k name t.maintenance_checks,
        );
  }

  assign_event_id-nonempty :
      {t : EventTracker} → IsValid t → ((assign_event_id uuid name t).0 == "") ≡ false
  unfolding assign_event_id
  assign_event_id-nonempty {t} v = ground arith

  fail-IsValid :
      {t : EventTracker}
      → IsValid t
      → (name == t.maintenance_check_name) ≡ false
      → get name t.event_ids ≡ none
      → IsValid (fail_regular_check uuid name none t).1
  unfolding fail_regular_check
  fail-IsValid {t} v other absent = record {
    ids_map = ground (arith, put-IsMap name (assign_event_id uuid name t).0 t.event_ids v.ids_map);
    ids_nonempty = λ k id h.
        ground
          (arith, v.ids_nonempty k id, get-put k name (assign_event_id uuid name t).0 t.event_ids);
    maintenance_id = ground arith;
    own_event =
        ground (
          arith,
          get-put t.maintenance_check_name name (assign_event_id uuid name t).0 t.event_ids,
        );
    own_unmarked = ground (arith, get-put t.maintenance_check_name name true t.maintenance_checks);
    marked = λ k h. ground (
      arith,
      v.marked k,
      v.marked name,
      eq_iff name k,
      get-put k name (assign_event_id uuid name t).0 t.event_ids,
      get-put k name true t.maintenance_checks,
    );
  }

  handle_regular_check-IsValid :
      (healthy : Bool) {t : EventTracker}
      → IsValid t
      → (name == t.maintenance_check_name) ≡ false
      → IsValid (handle_regular_check uuid name healthy t).1
  unfolding handle_regular_check
  handle_regular_check-IsValid true {t} v other =
      if_ind IsValid _ (maybe_cleanup-IsValid (recover-IsValid v other)) (recover-IsValid v other)
  handle_regular_check-IsValid false {t} v other = elim (Option-cases (get name t.event_ids)) [
    | inl absent ↦ rw absent (fail-IsValid v other absent)
    | inr held ↦ let (id, e) = held in rw e v
  ]

-- Every report keeps the invariant: of a healthy or failing status, of the maintenance check or another.
pub get_or_create_event_id-IsValid :
    (uuid : Uuid) (name : String) (status : Status) {t : EventTracker}
    → IsUuid uuid
    → IsValid t
    → IsValid (get_or_create_event_id uuid name status t).1
unfolding get_or_create_event_id
get_or_create_event_id-IsValid uuid name status {t} u v =
    elim (Bool-cases (name == t.maintenance_check_name)) [
      | inl e ↦ rw e (handle_maintenance_check-IsValid uuid (short_uuid_nonempty uuid u) _ v)
      | inr e ↦ rw e (handle_regular_check-IsValid uuid (short_uuid_nonempty uuid u) name _ v e)
    ]

pub get_next_sequence-IsValid :
    (id : String) {t : EventTracker} → IsValid t → IsValid (get_next_sequence id t).1
unfolding get_next_sequence
get_next_sequence-IsValid id {t} v = elim (Bool-cases (id == "")) [
  | inl e ↦ rw e v
  | inr e ↦ rw e (keep_ids t _ v)
]

pub clear_sequence-IsValid :
    (id : String) {t : EventTracker} → IsValid t → IsValid (clear_sequence id t)
unfolding clear_sequence
clear_sequence-IsValid id {t} v = if_ind IsValid _ v (if_ind IsValid _ v (keep_ids t _ v))

-- A tracker with no event, as `NewEventTracker` and `SetMaintenanceCheckName` leave it, is valid.
pub new-IsValid : (name : String) → IsValid (set_maintenance_check_name name new_event_tracker)
unfolding set_maintenance_check_name
new-IsValid name = if_ind IsValid _ (no_event-IsValid name) (no_event-IsValid "maintenance")
