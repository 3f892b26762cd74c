-- ===== src/Witnesses/InterleavingTests.antt =====
-- status.go: updates that overlap, at concrete inputs.
use health_go.Base.{
  String, true, false, none, some, List, [], ◌∷◌, ◌≡◌, ◌≢◌, refl, arith, ◌↔◌, inl, inr, Bool-cases,
  ◌==◌,
}
use health_go.Base.Int.{pos, inc}
use health_go.Base.Lists.{All}
use health_go.Base.GoMap.{GoMap, get, put, delete}
use health_go.Base.Text.{encode_to_string}
use health_go.Types.{Status, critical, passing}
use health_go.Events.{active_events}
use health_go.Check.{CheckConfig}
use health_go.StatusUpdater.{event_id_of, new_status_updater}
use health_go.Health.{http_code, register}
use health_go.Health.Service.{Event, registered, serve, status, with_config}
use health_go.Health.Service.Serving.{IsUsual}
use health_go.Health.Interleaved.{system_of, registered_in, container_of}
use health_go.Health.Interleaved.Settled.{settled_answer}
use health_go.Health.Interleaved.Flight.{in_hand, event_of, in_hand-event}
use health_go.StatusUpdater.Steps.{Phase, advance, begin}
use health_go.StatusUpdater.Steps.Interleaving.{
  Running, Reach, start, later, begun, advanced, after_begin, after_step,
}
use health_go.StatusUpdater.Steps.{reporting, sending}
use health_go.StatusUpdater.Steps.Repeats.{IsRecovering, number-repeated}
use health_go.StatusUpdater.{new_status_updater_internal, status_message}
use health_go.Actions.{new_action_runner}
use health_go.Notifications.{new_notification_sender}
use health_go.Events.{get_or_create_event_id, generate_short_uuid}
use health_go.Events.Operations.{run, apply}
use health_go.Events.Sequences.{counter}
use health_go.Witnesses.EventTests.{after_disk, after_disk-IsValid}
use health_go.Witnesses.Data.{
  settings, made, settings-made, config, env, uuid_a-IsUuid, uuid_b, uuid_b-IsUuid,
}

abbrev once : CheckConfig
once = record config { failures_before_critical = pos 1 }

-- two checks that the first failure makes critical
abbrev morning : List Event
morning =
    registered env none once
    ∷ registered (record env { uuid = uuid_b }) none (record once { name = "api" })
    ∷ []

morning-IsUsual : All IsUsual morning
morning-IsUsual = ((uuid_a-IsUuid, tt), ((uuid_b-IsUuid, tt), tt))

abbrev at_work : Running
at_work = system_of (serve morning made.health)

-- a refusal of the one check is counted, and then a result of the other, before the next two steps of the one
abbrev counted : Running
counted = after_begin "db" critical (some "refused") false at_work

abbrev both : Running
both = after_begin "api" critical none true counted

abbrev reported : Running
reported = after_step "db" env both

abbrev alerting : Running
alerting = after_step "db" env reported

abbrev alert_id : String
alert_id = (event_id_of env critical (both.updater "db") both.world).0

db_known : registered_in (serve morning made.health) "db" ≡ true
unfolding get serve with_config register put delete
db_known = refl

api_known : registered_in (serve morning made.health) "api" ≡ true
unfolding get serve with_config register put delete
api_known = refl

alerting_phase : in_hand (alerting.phase "db") ≡ some (critical, alert_id)
unfolding advance begin get serve with_config register put delete new_status_updater
alerting_phase = refl

both_free : counted.phase "api" ≡ Phase.idle
unfolding begin
both_free = refl

alerting-Reach : Reach (registered_in (serve morning made.health)) at_work alerting
alerting-Reach =
    later
      (later
        (later (later start (begun "db" critical (some "refused") false db_known refl))
          (begun "api" critical none true api_known both_free))
        (advanced "db" env db_known uuid_a-IsUuid))
      (advanced "db" env db_known uuid_a-IsUuid)

in_hand-event_example :
    ((alerting.updater "db").check.status ≡ critical)
    × (get "db" alerting.world.tracker.event_ids ≡ event_of critical alert_id)
in_hand-event_example =
    in_hand-event (pos 4) settings 0 made morning settings-made refl morning-IsUsual alerting "db"
      critical alert_id alerting-Reach db_known alerting_phase

-- a result of the other check that is below its threshold, while the alert of the one goes out
abbrev told : Running
told = after_begin "api" passing none false (after_step "db" env (after_step "db" env counted))

abbrev rested : Running
rested = after_step "db" env (after_step "db" env (after_step "db" env told))

told_free : (after_step "db" env (after_step "db" env counted)).phase "api" ≡ Phase.idle
unfolding begin
told_free = refl

rested-Reach : Reach (registered_in (serve morning made.health)) at_work rested
rested-Reach =
    let a = later start (begun "db" critical (some "refused") false db_known refl) in
    let b =
      later (later a (advanced "db" env db_known uuid_a-IsUuid))
        (advanced "db" env db_known uuid_a-IsUuid) in
    let c = later b (begun "api" passing none false api_known told_free) in
    later
      (later (later c (advanced "db" env db_known uuid_a-IsUuid))
        (advanced "db" env db_known uuid_a-IsUuid))
      (advanced "db" env db_known uuid_a-IsUuid)

rested_phases :
    (name : String)
    → registered_in (serve morning made.health) name ≡ true
    → rested.phase name ≡ Phase.idle
unfolding advance begin get serve with_config register put delete new_status_updater
rested_phases name here = elim (Bool-cases ("db" == name)) [
  | inl e ↦ rw e refl
  | inr e ↦ elim (Bool-cases ("api" == name)) [ inl f ↦ rw (e, f) refl | inr f ↦ rw (e, f) refl ]
]

settled_answer_example :
    (a : Status × GoMap String) × (status (container_of (serve morning made.health) rested)
      ≡ some a)
    × ((http_code a.0 ≡ 200) ↔ (active_events rested.world.tracker ≡ []))
settled_answer_example =
    settled_answer (pos 4) settings 0 made morning settings-made refl morning-IsUsual rested
      rested-Reach rested_phases

-- the cache and the disk have recovered from the maintenance event, and neither has reported it
abbrev recovering : Running
recovering = record {
  updater = λ name.
      new_status_updater_internal (pos 1) (pos 1) (pos 1)
        (new_action_runner name none none none none) [] true;
  phase = λ name. reporting passing none true;
  world = record { tracker = after_disk; notifications = new_notification_sender 8; jobs = [] };
}

abbrev shared_id : String
shared_id = after_disk.maintenance_event_id

cache-IsRecovering : IsRecovering recovering shared_id "cache" none
unfolding run apply get_or_create_event_id get put delete new_status_updater_internal
    new_action_runner
cache-IsRecovering = record { phase = refl; named = refl; tracked = refl; held = refl }

disk-IsRecovering : IsRecovering recovering shared_id "disk" none
unfolding run apply get_or_create_event_id get put delete new_status_updater_internal
    new_action_runner
disk-IsRecovering = record { phase = refl; named = refl; tracked = refl; held = refl }

two_hold :
    (j : String)
    → ("cache" == j) ≡ false
    → ("disk" == j) ≡ false
    → get j after_disk.event_ids ≢ some shared_id
unfolding run apply get_or_create_event_id get put delete generate_short_uuid encode_to_string
two_hold j first second = ground arith

number-repeated_example :
    (m t : Running) × Reach (λ name. true) recovering m
    × Reach (λ name. true) m t
    × (m.phase "cache"
        ≡ sending passing
            (status_message passing none)
            shared_id
            (inc (counter shared_id after_disk)))
    × (t.phase "disk" ≡ sending passing (status_message passing none) shared_id (pos 1))
number-repeated_example =
    number-repeated (λ name. true) env uuid_a-IsUuid recovering shared_id "cache" "disk" none none
      after_disk-IsValid refl refl refl cache-IsRecovering disk-IsRecovering two_hold
