-- ===== src/Witnesses/MaintenanceTests.antt =====
-- checks/maintenance/check.go: tests, and the theorems at concrete inputs.
use health_go.Base.Lists.{All}
use health_go.Base.{true, false, none, some, [], ◌∷◌, ◌≡◌, refl, arith, String, inr, List}
use health_go.Base.Int.{pos}
use health_go.Base.Text.{◌<>◌, itoa}
use health_go.Types.{CheckNotification}
use health_go.Notifications.{Notifications, send, disable, enable}
use health_go.Base.Int.{wrap_int64}
use health_go.Maintenance.{
  missing, present, directive, parse_notification_disable, cut_after, suffix_duration, digit_prefix,
  decimal_value, atoi, trim_space, is_space, apply_directive, maintenance_check,
}
use health_go.Maintenance.Directive.{directive-overflow}
use health_go.Maintenance.Runs.{Event, ran, sent, after_events, IsWithin, maintenance_window}

abbrev sender : Notifications
sender = record {
  channel = [];
  capacity = 8;
  disabled = false;
  disabled_duration = pos 0;
  disabled_time = 0;
}

abbrev content : String
content = " upgrading HEALTH_GO_DISABLE_NOTIFICATIONS_60, back soon \n"

content_duration : parse_notification_disable (trim_space content) ≡ some (pos 60000000000)
unfolding parse_notification_disable trim_space cut_after suffix_duration digit_prefix decimal_value
    atoi wrap_int64 is_space
content_duration = refl

forever : parse_notification_disable "HEALTH_GO_DISABLE_NOTIFICATIONS" ≡ some (pos 0)
unfolding parse_notification_disable cut_after suffix_duration
forever = refl

no_directive : parse_notification_disable "upgrading" ≡ none
unfolding parse_notification_disable cut_after
no_directive = refl

abbrev message : CheckNotification
message = record {
  name = "db";
  message = "Status: critical";
  attachment = [];
  tags = [];
  notifiers = [];
  event_id = "";
  sequence = pos 0;
}

directive-overflow_example :
    send 1000 message (apply_directive 500 (directive <> "_" <> itoa (pos 9999999999) <> "") sender)
    ≡ record (send 1000 message (enable sender)) { disabled_time = 500 }
directive-overflow_example =
    directive-overflow 9999999999 "" 500 1000 message sender refl (omega arith) (omega arith) refl
      (omega arith)

abbrev events : List Event
events = sent 550 message ∷ ran 600 (present none) ∷ sent 60000000400 message ∷ []

events-IsWithin : All (IsWithin 500 60000000000) events
events-IsWithin = (inr (omega arith, omega arith), (tt, (inr (omega arith, omega arith), tt)))

maintenance_window_example :
    let during = after_events (ran 500 (present (some content)) ∷ events) sender in
    (during ≡ disable 500 (pos 60000000000) sender)
    × (during.channel ≡ sender.channel)
    × (maintenance_check 70000000000 missing (some during) ≡ (
      record { error = none; is_warning = false; no_notification = true },
      some (enable during),
    ))
maintenance_window_example =
    maintenance_window 500 70000000000 content 60000000000 events sender refl content_duration
      (omega arith) refl events-IsWithin
