-- ===== src/Notifications.antt =====
-- notifications.go: the sender of notifications. The buffered channel is the list of the
-- notifications that were not yet received; `now` is what the clock shows in the call.
pub mod Delivery
use health_go.Base.{Bool, true, false, not, List, [], ◌∷◌, ◌++◌, ℕ, ltb, if◌then◌else◌}
use health_go.Base.Int.{ℤ, pos, is_zero, ltb_ℤ, since}
use health_go.Base.Lists.{length}
use health_go.Types.{CheckNotification, Time}

pub record Notifications : Type 0 where
  pub channel : List CheckNotification
  pub capacity : ℕ
  pub disabled : Bool
  pub disabled_duration : ℤ
  pub disabled_time : Time

-- the sender for an empty channel, `make(chan CheckNotification, capacity)`
unfoldable pub new_notification_sender : ℕ → Notifications
new_notification_sender capacity = record {
  channel = [];
  capacity = capacity;
  disabled = false;
  disabled_duration = pos 0;
  disabled_time = 0;
}

-- the `select` with a default: a notification that does not fit is dropped
unfoldable pub offer : CheckNotification → Notifications → Notifications
offer notification n =
    if ltb (length n.channel) n.capacity
    then record n { channel = n.channel ++ notification ∷ [] }
    else n

unfoldable pub send : Time → CheckNotification → Notifications → Notifications
unfolding offer
send now notification n =
    if n.disabled
    then if is_zero n.disabled_duration
      then n
      else if ltb_ℤ (since now n.disabled_time) n.disabled_duration
      then n
      else offer notification (record n { disabled = false; disabled_duration = pos 0 })
    else offer notification n

unfoldable pub disable : Time → ℤ → Notifications → Notifications
disable now disable_duration n = record n {
  disabled = true;
  disabled_duration = disable_duration;
  disabled_time = now;
}

unfoldable pub enable : Notifications → Notifications
enable n = record n { disabled = false; disabled_duration = pos 0 }

unfoldable pub enabled : Notifications → Bool
enabled n = not n.disabled
