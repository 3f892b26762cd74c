-- ===== src/StatusUpdater/Notices.antt =====
-- status.go: what a notification says.
use health_go.Base.{
  String, Bool, true, false, ◌++◌, ◌⊎◌, not, ◌&&◌, ◌||◌, List, [], ◌∷◌, ◌≡◌, refl, arith,
  Bool-cases, inl, inr,
}
use health_go.Base.Int.{leb_ℤ, ℤ}
use health_go.Base.Text.{◌<>◌}
use health_go.Types.{
  Status, passing, warning, critical, timeout, initializing, status_text, eq_status,
  CheckNotification, Error,
}
use health_go.Notifications.{new_notification_sender, send, offer}
use health_go.Actions.{ActionRunner}
use health_go.StatusUpdater.{
  StatusUpdater, World, Env, update, status_message, new_status_updater_internal, update_failing,
  update_passing, cross, event_id_of, notify_change, send_notification, next_sequence,
  status_notification, run_actions, release_event, count_success, count_failure, new_status_updater,
}
use health_go.StatusUpdater.History.{History, replay}

abbrev pub is_nonempty : List CheckNotification → Bool
is_nonempty [] = false
is_nonempty (n ∷ ns) = true

-- what an update sends, into an empty channel in place of the world's
unfoldable pub sent : Env → Status → Error → Bool → StatusUpdater → World → List CheckNotification
sent env status error quiet s w =
    (update env status error quiet s
      (record w { notifications = new_notification_sender 512 })).1.notifications.channel

unfoldable pub alerted : Env → Status → Error → Bool → StatusUpdater → World → Bool
unfolding sent
alerted env status error quiet s w = is_nonempty (sent env status error quiet s w)

-- the notifications that results send, the latest first, after those of `first`
unfoldable pub notices : List CheckNotification → History → StatusUpdater → List CheckNotification
unfolding sent
notices first [] s = first
notices first ((r, w) ∷ older) s =
    sent r.env r.status r.error r.quiet (replay older s) w ++ notices first older s

-- a status, and the message about it
abbrev pub Alert : Type 0
Alert = Status × String

-- a notification of a check with the status as its tag and with the message
pub record IsAbout (name : String) (alert : Alert) (n : CheckNotification) : Type 0 where
  pub own : n.name ≡ name
  pub message : n.message ≡ alert.1
  pub more_tags : List String
  pub tagged : n.tags ≡ ("status:" <> status_text alert.0) ∷ more_tags

-- notifications and what they are about, one by one
abbrev pub Tells : String → List CheckNotification → List Alert → Type 0
Tells name [] [] = Unit
Tells name [] (a ∷ alerts') = ⊥
Tells name (n ∷ ns) [] = ⊥
Tells name (n ∷ ns) (a ∷ alerts') = IsAbout name a n × Tells name ns alerts'

-- the notifications of a world, and at most one is there, about a result
abbrev pub OneAbout : String → Alert → List CheckNotification → Type 0
OneAbout name alert ns =
    (ns ≡ []) ⊎ ((n : CheckNotification) × (ns ≡ n ∷ []) × IsAbout name alert n)

silent_world : World → World
silent_world w = record w { notifications = new_notification_sender 512 }

cross-OneAbout :
    (env : Env) (status : Status) (error : Error) (quiet : Bool) (s : StatusUpdater) (w : World)
    → OneAbout s.actions.check_name
        (status, status_message status error)
        (cross env status error quiet s (silent_world w)).2.notifications.channel
unfolding silent_world cross event_id_of notify_change send_notification next_sequence
    status_notification run_actions send offer new_notification_sender
cross-OneAbout env status error quiet s w =
    let told = (not (eq_status s.check.status status) || not s.initialized) && not quiet in
    elim (Bool-cases told) [
      | inr silent ↦ elim (Bool-cases s.tracked) [
        | inl t ↦ rw (silent, t) (inl refl)
        | inr t ↦ rw (silent, t) (inl refl)
      ]
      | inl loud ↦ elim (Bool-cases s.tracked) [
        | inl t ↦
            rw (loud, t)
              (inr (_, refl, record { own = refl; message = refl; more_tags = _; tagged = refl }))
        | inr t ↦
            rw (loud, t)
              (inr (_, refl, record { own = refl; message = refl; more_tags = _; tagged = refl }))
      ]
    ]

release-channel :
    (id : String) (s : StatusUpdater) (w : World)
    → (release_event id s w).notifications.channel ≡ w.notifications.channel
unfolding release_event
release-channel id s w = ground arith

pub sends_one :
    (env : Env) (status : Status) (error : Error) (quiet : Bool) (s : StatusUpdater) (w : World)
    → OneAbout s.actions.check_name
        (status, status_message status error)
        (sent env status error quiet s w)
unfolding silent_world sent update update_failing update_passing new_notification_sender
sends_one env passing error quiet s w =
    let s' = count_success s in
    elim (Bool-cases (leb_ℤ s'.successes_before_passing s'.successes)) [
      | inr below ↦ rw (sent, below) (inl refl)
      | inl reached ↦
          rw (sent, reached) (rw release-channel (cross-OneAbout env passing error quiet s' w))
    ]
sends_one env warning error quiet s w =
    let s' = count_failure s in
    elim (Bool-cases (leb_ℤ s.failures_before_warning s'.failures)) [
      | inr below ↦ rw (sent, below) (inl refl)
      | inl reached ↦ rw (sent, reached) (cross-OneAbout env warning error quiet s' w)
    ]
sends_one env critical error quiet s w =
    let s' = count_failure s in
    elim (Bool-cases (leb_ℤ s.failures_before_critical s'.failures)) [
      | inr below ↦ rw (sent, below) (inl refl)
      | inl reached ↦ rw (sent, reached) (cross-OneAbout env critical error quiet s' w)
    ]
sends_one env timeout error quiet s w =
    let s' = count_failure s in
    elim (Bool-cases (leb_ℤ s.failures_before_critical s'.failures)) [
      | inr below ↦ rw (sent, below) (inl refl)
      | inl reached ↦ rw (sent, reached) (cross-OneAbout env timeout error quiet s' w)
    ]
sends_one env _ error quiet s w = inl refl

-- the notifications of a check that is new
unfoldable pub announced :
    Env → ℤ → ℤ → ℤ → ActionRunner → List String → Bool → World → List CheckNotification
announced env to_pass to_warn to_fail actions notifiers tracked w =
    (new_status_updater env to_pass to_warn to_fail actions notifiers tracked
      (record w { notifications = new_notification_sender 512 })).1.notifications.channel

pub announced-one :
    (env : Env) (to_pass to_warn to_fail : ℤ) (actions : ActionRunner) (notifiers : List String)
    (tracked : Bool) (w : World)
    → (n : CheckNotification) × (announced env to_pass to_warn to_fail actions notifiers tracked w
        ≡ n ∷ [])
      × IsAbout actions.check_name (initializing, status_text initializing) n
unfolding announced new_status_updater new_status_updater_internal event_id_of send_notification
    next_sequence status_notification send offer new_notification_sender
announced-one env to_pass to_warn to_fail actions notifiers true w =
    (_, refl, record { own = refl; message = refl; more_tags = _; tagged = refl })
announced-one env to_pass to_warn to_fail actions notifiers false w =
    (_, refl, record { own = refl; message = refl; more_tags = _; tagged = refl })
