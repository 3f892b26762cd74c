-- ===== src/Witnesses/EventTests.antt =====
-- events.go: the tracker's theorems at concrete inputs.
use health_go.Base.{false, some, List, [], ◌∷◌, ◌≡◌, refl, arith}
use health_go.Base.Int.{pos}
use health_go.Base.Lists.{length, All}
use health_go.Base.GoMap.{get, put, delete, any_value}
use health_go.Base.Text.{encode_to_string}
use health_go.Types.{critical, warning, passing}
use health_go.Events.{
  EventTracker, new_event_tracker, get_or_create_event_id, generate_short_uuid, get_next_sequence,
  clear_sequence,
}
use health_go.Events.Invariant.{IsValid}
use health_go.Events.Operations.{
  Operation, report, number, release, run, run-IsValid, apply, IsFed, recovers,
}
use health_go.Events.Reports.{other_recovery_keeps}
use health_go.Events.Stability.{event_id-stable}
use health_go.Events.Sequences.{counter, issued, count_up, issued-count_up}
use health_go.Witnesses.Data.{
  uuid_a, uuid_b, uuid_a-IsUuid, uuid_b-IsUuid, id_a, new_tracker-IsValid, broken, broken-IsValid,
  broken-held,
}

-- the database fails, maintenance begins, the cache fails in it, and the database notifies twice
abbrev busy : List Operation
busy =
    number id_a
    ∷ report uuid_b "maintenance" warning
    ∷ report uuid_a "cache" critical
    ∷ release id_a
    ∷ number id_a
    ∷ report uuid_b "db" warning
    ∷ report uuid_a "maintenance" passing
    ∷ []

busy-IsFed : All IsFed busy
busy-IsFed =
    (tt, (uuid_b-IsUuid, (uuid_a-IsUuid, (tt, (tt, (uuid_b-IsUuid, (uuid_a-IsUuid, tt)))))))

busy-others : All (λ op. recovers "db" op ≡ false) busy
busy-others = (refl, (refl, (refl, (refl, (refl, (refl, (refl, tt)))))))

run-IsValid_example : IsValid (run busy broken)
run-IsValid_example = run-IsValid busy busy-IsFed broken-IsValid

event_id-stable_example : get "db" (run busy broken).event_ids ≡ some id_a
event_id-stable_example =
    event_id-stable "db" id_a busy broken-IsValid busy-IsFed busy-others broken-held

-- two numbers of the event are handed out, 1 and 2
busy-issued : issued id_a busy broken ≡ pos 1 ∷ pos 2 ∷ []
unfolding issued apply get_or_create_event_id get_next_sequence clear_sequence get put delete
    any_value generate_short_uuid encode_to_string
busy-issued = refl

broken-counter : counter id_a broken ≡ pos 0
unfolding get_or_create_event_id get put delete
broken-counter = refl

issued-count_up_example : issued id_a busy broken ≡ count_up 0 (length (issued id_a busy broken))
issued-count_up_example =
    issued-count_up "db" id_a busy 0 broken-IsValid busy-IsFed busy-others broken-held
      broken-counter (rw busy-issued (omega arith))

-- the cache and the disk failed during maintenance, and maintenance is over
abbrev pub with_disk : List Operation
with_disk =
    report uuid_b "maintenance" warning
    ∷ report uuid_a "disk" critical
    ∷ report uuid_a "cache" critical
    ∷ report uuid_a "maintenance" passing
    ∷ []

abbrev pub after_disk : EventTracker
after_disk = run with_disk new_event_tracker

pub after_disk-IsValid : IsValid after_disk
after_disk-IsValid =
    run-IsValid with_disk (uuid_b-IsUuid, (uuid_a-IsUuid, (uuid_a-IsUuid, (uuid_a-IsUuid, tt))))
      new_tracker-IsValid

other_recovery_keeps_example :
    (get_or_create_event_id uuid_a "cache" passing after_disk).1.maintenance_event_id
    ≡ after_disk.maintenance_event_id
unfolding run apply get_or_create_event_id get put delete generate_short_uuid encode_to_string
other_recovery_keeps_example =
    other_recovery_keeps uuid_a "cache" after_disk-IsValid refl refl refl "disk" refl refl
