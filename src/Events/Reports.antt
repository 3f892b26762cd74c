-- ===== src/Events/Reports.antt =====
-- events.go: what one report of a check does to the events, for failing and healthy statuses.
use health_go.Base.{
  String, Bool, true, false, none, some, ◌≡◌, ◌≢◌, [], ◌==◌, arith, eq_iff, eq_refl, Bool-cases,
  inl, inr, if◌then◌else◌, get_or,
}
use health_go.Base.GoMap.{
  get, delete, any_value, get-put, get-delete, get_of_any_value, any_value_of_get, delete-IsMap,
}
use health_go.Types.{Status, passing, eq_status}
use health_go.Events.{Uuid, EventTracker, generate_short_uuid, get_or_create_event_id, get_event_id}
use health_go.Events.Invariant.{IsValid}

module _ (uuid : Uuid) (name : String) (status : Status) (t : EventTracker) where
  -- In a valid tracker a check that reports another status than passing keeps the event ID that it has.
  -- With none it gets the maintenance event while maintenance is active, and else the new ID. So it is
  -- also for the maintenance check itself.
  pub failure_id :
      IsValid t
      → eq_status status passing ≡ false
      → (get_or_create_event_id uuid name status t).0
        ≡ get_or
            (get name t.event_ids)
            (if t.maintenance_active then t.maintenance_event_id else generate_short_uuid uuid)
  unfolding get_or_create_event_id
  failure_id v failing = ground (arith, eq_iff name t.maintenance_check_name, v.marked name)

  -- A failing report attaches the returned ID to the check, and to no other.
  pub failure_attaches :
      eq_status status passing ≡ false
      → (j : String)
      → get j (get_or_create_event_id uuid name status t).1.event_ids ≡ (
          if name == j
          then some (get_or_create_event_id uuid name status t).0
          else get j t.event_ids)
  unfolding get_or_create_event_id
  failure_attaches failing j = ground (
    arith,
    eq_iff name t.maintenance_check_name,
    eq_iff name j,
    get-put j name t.maintenance_event_id t.event_ids,
    get-put j name (generate_short_uuid uuid) t.event_ids,
  )

  -- A healthy report returns the ID that the check had, and detaches it from that check alone.
  pub recovery_detaches :
      eq_status status passing ≡ true
      → ((get_or_create_event_id uuid name status t).0 ≡ get_event_id name t)
        × ((j : String)
            → get j (get_or_create_event_id uuid name status t).1.event_ids
              ≡ (if name == j then none else get j t.event_ids))
  unfolding get_or_create_event_id get_event_id
  recovery_detaches healthy = (
    ground (arith, eq_iff name t.maintenance_check_name),
    λ j. ground (arith, eq_iff name t.maintenance_check_name, get-delete j name t.event_ids),
  )

module _ (uuid : Uuid) (name : String) {t : EventTracker} (v : IsValid t)
    (regular : (name == t.maintenance_check_name) ≡ false) (ended : t.maintenance_active ≡ false)
    (held : get name t.event_ids ≡ some t.maintenance_event_id) where
  any_holder : Bool
  any_holder = any_value (λ id. id == t.maintenance_event_id) (delete name t.event_ids)

  -- After maintenance has ended in a valid tracker, when a check other than the maintenance check
  -- recovers that holds the maintenance event, and no other check holds it, the tracker forgets the
  -- event and its list of checks.
  pub last_recovery_forgets :
      ((j : String) → (name == j) ≡ false → get j t.event_ids ≢ some t.maintenance_event_id)
      → ((get_or_create_event_id uuid name passing t).1.maintenance_event_id ≡ "")
        × ((get_or_create_event_id uuid name passing t).1.maintenance_checks ≡ [])
  unfolding get_or_create_event_id any_holder
  last_recovery_forgets alone = elim (Bool-cases any_holder) [
    | inl e ↦
        let (j, id, g, same) =
          get_of_any_value _ (delete name t.event_ids) (delete-IsMap name t.event_ids v.ids_map)
            e in
        ground (arith, alone j, get-delete j name t.event_ids, eq_iff id t.maintenance_event_id)
    | inr e ↦ ground (arith, eq_refl t.maintenance_event_id)
  ]

  -- After maintenance has ended in a valid tracker, when a check other than the maintenance check recovers
  -- that holds the maintenance event, and another check holds it too, the tracker keeps the event.
  pub other_recovery_keeps :
      (j : String)
      → (name == j) ≡ false
      → get j t.event_ids ≡ some t.maintenance_event_id
      → (get_or_create_event_id uuid name passing t).1.maintenance_event_id ≡ t.maintenance_event_id
  unfolding get_or_create_event_id any_holder
  other_recovery_keeps j other holds =
      let found : any_holder ≡ true =
        any_value_of_get (λ id. id == t.maintenance_event_id) j t.maintenance_event_id
          (delete name t.event_ids) (ground (arith, get-delete j name t.event_ids))
          (eq_refl t.maintenance_event_id) in
      ground arith
