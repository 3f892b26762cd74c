-- ===== src/Maintenance/Runs.antt =====
-- checks/maintenance/check.go, New: what runs of the check do to the sender while the file exists and after it.
use health_go.Base.{
  String, true, false, none, some, List, [], ◌∷◌, Option, ◌≡◌, ◌∙◌, ap, refl, arith, ◌==◌, get_or,
  ℕ, ◌+◌, ◌<◌, ◌≤◌, ◌⊎◌, inl, inr,
}
use health_go.Base.Int.{ℤ, pos, max_int}
use health_go.Base.Lists.{All}
use health_go.Types.{Time, CheckNotification}
use health_go.Notifications.{Notifications, send, disable, enable, enabled}
use health_go.Notifications.Delivery.{
  send_after_duration, send_all, disable_forever, disable_for_duration,
}
use health_go.Maintenance.{
  File, missing, present, maintenance_check, parse_notification_disable, trim_space, read_directive,
  apply_directive,
}

-- a run that finds the file in some state, or a notification that is sent
pub data Event : Type 0 where
  ran : Time → File → Event
  sent : Time → CheckNotification → Event

-- the sender after these events
unfoldable pub after_events : List Event → Notifications → Notifications
after_events [] n = n
after_events (ran now file ∷ events) n =
    after_events events (get_or (maintenance_check now file (some n)).1 n)
after_events (sent now m ∷ events) n = after_events events (send now m n)

-- while the file is there and the time of the directive is not over: runs find the file, and
-- notifications are sent at times from the start to its end; 0 is a time without end
abbrev pub IsWithin : ℕ → ℕ → Event → Type 0
IsWithin start d (ran now (present content)) = Unit
IsWithin start d (ran now _) = ⊥
IsWithin start d (sent now m) = (d ≡ 0) ⊎ ((start ≤ now) × (now < start + d))

disabled-kept :
    (now : Time) (content : Option String) (n : Notifications)
    → n.disabled ≡ true
    → get_or (read_directive now content (some n)) n ≡ n
unfolding read_directive enabled
disabled-kept now none n off = refl
disabled-kept now (some content) n off = ground arith

send-suppressed :
    (start now d : ℕ) (m : CheckNotification) (n : Notifications)
    → d ≤ max_int
    → (d ≡ 0) ⊎ ((start ≤ now) × (now < start + d))
    → send now m (disable start (pos d) n) ≡ disable start (pos d) n
unfolding send_all disable
send-suppressed start now d m n fits (inl forever) =
    rw forever (disable_forever start ((now, m) ∷ []) n)
send-suppressed start now d m n fits (inr within) =
    disable_for_duration start d ((now, m) ∷ []) n fits (within, tt)

events-kept :
    (start d : ℕ) (events : List Event) (n : Notifications)
    → d ≤ max_int
    → All (IsWithin start d) events
    → after_events events (disable start (pos d) n) ≡ disable start (pos d) n
unfolding after_events maintenance_check disable
events-kept start d [] n fits here = refl
events-kept start d (ran now (present content) ∷ events) n fits here =
    rw (disabled-kept now content (disable start (pos d) n) refl)
      (events-kept start d events n fits here.1)
events-kept start d (ran now _ ∷ events) n fits here = absurd here.0
events-kept start d (sent now m ∷ events) n fits here =
    rw (send-suppressed start now d m n fits here.0) (events-kept start d events n fits here.1)

-- The first run that finds a directive in the file disables notifications. From then on, for the time
-- that the directive gives, or without end for one that gives none, every notification is
-- suppressed, and further runs that find the file change nothing, whatever it contains then, in any
-- order. The run that finds it removed enables notifications, without one of its own. Notifications
-- were enabled before, and the time fits in 63 bits.
pub maintenance_window :
    (start end : Time) (content : String) (d : ℕ) (events : List Event) (n : Notifications)
    → (content == "") ≡ false
    → parse_notification_disable (trim_space content) ≡ some (pos d)
    → d ≤ max_int
    → n.disabled ≡ false
    → All (IsWithin start d) events
    → let during = after_events (ran start (present (some content)) ∷ events) n in
      (during ≡ disable start (pos d) n)
      × (during.channel ≡ n.channel)
      × (maintenance_check end missing (some during) ≡ (
        record { error = none; is_warning = false; no_notification = true },
        some (enable during),
      ))
unfolding maintenance_check after_events enabled disable
maintenance_window start end content d events n nonempty found fits on here =
    let during = after_events (ran start (present (some content)) ∷ events) n in
    let same : during ≡ disable start (pos d) n =
      rw (nonempty, apply_directive, found, on) (events-kept start d events n fits here) in
    (same, ap (λ x. x.channel) same, rw same refl)

sent-enabled :
    (now : Time) (m : CheckNotification) (n : Notifications)
    → (send now m (enable n)).disabled ≡ false
unfolding send enable
sent-enabled now m n = ground arith

-- a run that finds a directive while notifications are enabled
directive-disables :
    (now : Time) (content : String) (duration : ℤ) (n : Notifications)
    → (content == "") ≡ false
    → parse_notification_disable (trim_space content) ≡ some duration
    → n.disabled ≡ false
    → (maintenance_check now (present (some content)) (some n)).1 ≡ some (disable now duration n)
unfolding maintenance_check enabled disable
directive-disables now content duration n nonempty found on =
    rw (nonempty, apply_directive, found, on) refl

-- With a timed directive, once the time is over and a notification is sent, the next run that finds the
-- file disables notifications again for the same time.
pub expired-disables_again :
    (start now end : Time) (d : ℕ) (content : String) (m : CheckNotification) (n : Notifications)
    → (content == "") ≡ false
    → parse_notification_disable (trim_space content) ≡ some (pos d)
    → 0 < d
    → d ≤ max_int
    → start + d ≤ now
    → (maintenance_check end
        (present (some content))
        (some (send now m (disable start (pos d) n)))).1
      ≡ some (disable end (pos d) (send now m (enable n)))
unfolding disable
expired-disables_again start now end d content m n nonempty found timed fits over =
    let sent = send_after_duration start now d m n timed fits over in
    directive-disables end content (pos d) _ nonempty found (rw sent (sent-enabled now m n))
    ∙ ap (λ x. some (disable end (pos d) x)) sent
