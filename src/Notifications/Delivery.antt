-- ===== src/Notifications/Delivery.antt =====
-- notifications.go: which notifications reach the channel.
use mathlib.Core.List.{append-nil, append_assoc}
use health_go.Base.{◌⊎◌, inl, inr, ◌∙◌, List, [], ◌∷◌, ◌++◌, ℕ, ◌+◌, ◌≤◌, ◌<◌, ◌≡◌, refl, ap, arith}
use health_go.Base.Int.{pos, max_int}
use health_go.Base.Lists.{All, length, length-append}
use health_go.Types.{CheckNotification, Time}
use health_go.Notifications.{Notifications, send, disable, enable}

-- A list of sends, each at its time.
abbrev pub Sends : Type 0
Sends = List (Time × CheckNotification)

unfoldable pub send_all : Sends → Notifications → Notifications
send_all [] n = n
send_all ((now, m) ∷ rest) n = send_all rest (send now m n)

-- After `Disable(0)` nothing is sent, however many sends follow and whenever they come.
pub disable_forever :
    (start : Time) (sends : Sends) (n : Notifications)
    → send_all sends (disable start (pos 0) n) ≡ disable start (pos 0) n
unfolding send_all send disable
disable_forever start [] n = refl
disable_forever start ((now, m) ∷ rest) n = disable_forever start rest n

suppressed_step :
    (start now d : ℕ) (m : CheckNotification) (n : Notifications)
    → d ≤ max_int
    → start ≤ now
    → now < start + d
    → send now m (disable start (pos d) n) ≡ disable start (pos d) n
unfolding send disable
suppressed_step start now d m n fits later before = ground arith

-- After `Disable` with a duration that fits in 63 bits, no send from its start and before its end
-- changes anything.
pub disable_for_duration :
    (start d : ℕ) (sends : Sends) (n : Notifications)
    → d ≤ max_int
    → All (λ s. (start ≤ s.0) × (s.0 < start + d)) sends
    → send_all sends (disable start (pos d) n) ≡ disable start (pos d) n
unfolding send_all
disable_for_duration start d [] n fits within = refl
disable_for_duration start d ((now, m) ∷ rest) n fits within =
    rw (suppressed_step start now d m n fits within.0.0 within.0.1)
      (disable_for_duration start d rest n fits within.1)

-- After `Disable` with a positive duration that fits in 63 bits, the first send that comes once the
-- duration is over is sent as if notifications had been enabled again, and they are enabled then.
pub send_after_duration :
    (start now d : ℕ) (m : CheckNotification) (n : Notifications)
    → 0 < d
    → d ≤ max_int
    → start + d ≤ now
    → send now m (disable start (pos d) n)
      ≡ record (send now m (enable n)) { disabled_time = start }
unfolding send disable enable
send_after_duration start now d m n some_time fits over = ground arith

send-appends :
    (now : Time) (m : CheckNotification) (n : Notifications)
    → length n.channel ≤ n.capacity
    → (length (send now m n).channel ≤ n.capacity)
      × ((send now m n).capacity ≡ n.capacity)
      × (((send now m n).channel ≡ n.channel) ⊎ ((send now m n).channel ≡ n.channel ++ m ∷ []))
unfolding send
send-appends now m n fits = ground (arith, length-append n.channel (m ∷ []))

-- Any sends leave what stands in the channel where it stands, append behind it, and do not fill a
-- channel that is within its capacity past it.
pub send_all-appends :
    (sends : Sends) (n : Notifications)
    → length n.channel ≤ n.capacity
    → (ys : List CheckNotification) × ((send_all sends n).channel ≡ n.channel ++ ys)
      × (length (send_all sends n).channel ≤ n.capacity)
unfolding send_all
send_all-appends [] n fits = ([], rw append-nil, fits)
send_all-appends ((now, m) ∷ rest) n fits =
    let (small, same, how) = send-appends now m n fits in
    let (ys, grown, bound) = send_all-appends rest (send now m n) (omega arith) in
    elim how [
      | inl kept ↦ (ys, grown ∙ ap (λ c. c ++ ys) kept, omega arith)
      | inr more ↦
          (m ∷ ys, grown ∙ ap (λ c. c ++ ys) more ∙ append_assoc n.channel (m ∷ []) ys, omega arith)
    ]
