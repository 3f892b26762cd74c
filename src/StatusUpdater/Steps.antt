-- ===== src/StatusUpdater/Steps.antt =====
-- status.go, update, one access to shared state at a time. `s.mu` is held from the first step of an update to
-- its last, so a check has one update under way at most; the tracker, the status and the sender have locks of
-- their own, and the updates of other checks run between the steps. Each step has its own clock.
pub mod Sequential
pub mod Interleaving
pub mod Coherent
pub mod Agreement
pub mod Alone
pub mod Race
pub mod Repeats
use health_go.Base.{String, Bool, true, false, not, ◌&&◌, ◌||◌, [], if◌then◌else◌}
use health_go.Base.Int.{ℤ, leb_ℤ}
use health_go.Types.{Status, passing, warning, critical, timeout, eq_status, Error}
use health_go.Notifications.{send}
use health_go.StatusUpdater.{
  StatusUpdater, World, Env, update_status, event_id_of, next_sequence, status_notification,
  status_message, run_actions, release_event, count_failure, count_success,
}

-- Where an update stands, with the local variables that are live there.
pub data Phase : Type 0 where
  idle : Phase  -- `s.mu` is free
  reporting : Status → Error → Bool → Phase  -- before `getOrCreateEventID`, with the test of the notification
  showing : Status → Error → Bool → String → Phase  -- before `s.check.Update`, with the event ID
  numbering : Status → String → String → Phase  -- before `GetNextSequence` in `sendNotification`
  sending : Status → String → String → ℤ → Phase  -- before `Send`
  acting : Status → String → String → Phase  -- before the handler of the actions
  releasing : String → Phase  -- before `ClearSequence`

-- `(oldStatus != status || firstResult) && !disableNotification`
abbrev pub notifies : Status → Bool → StatusUpdater → Bool
notifies status disable_notification s =
    (not (eq_status s.check.status status) || not s.initialized) && not disable_notification

-- a result is counted, and has reached its threshold or not
abbrev pub counted : ℤ → ℤ → Status → Error → Bool → StatusUpdater → Phase × StatusUpdater
counted threshold count status err disable_notification s = (
  if leb_ℤ threshold count
      then reporting status err (notifies status disable_notification s)
      else idle,
  s,
)

unfoldable pub begin : Status → Error → Bool → StatusUpdater → Phase × StatusUpdater
unfolding count_failure count_success
begin timeout err quiet s =
    let s' = count_failure s in counted s.failures_before_critical s'.failures timeout err quiet s'
begin passing err quiet s =
    let s' = count_success s in counted s.successes_before_passing s'.successes passing err quiet s'
begin warning err quiet s =
    let s' = count_failure s in counted s.failures_before_warning s'.failures warning err quiet s'
begin critical err quiet s =
    let s' = count_failure s in counted s.failures_before_critical s'.failures critical err quiet s'
begin _ err quiet s = (idle, s)

-- after the actions only a recovery goes on
abbrev pub acted : Status → String → Phase
acted passing event_id = releasing event_id
acted _ event_id = idle

abbrev pub shown : Bool → Status → Error → String → Phase
shown true status err event_id = numbering status (status_message status err) event_id
shown false status err event_id = acting status (status_message status err) event_id

unfoldable pub advance : Env → Phase → StatusUpdater → World → Phase × StatusUpdater × World
unfolding event_id_of next_sequence run_actions release_event
advance env idle s w = (idle, s, w)
advance env (reporting status err notify) s w =
    let (event_id, w') = event_id_of env status s w in (showing status err notify event_id, s, w')
advance env (showing status err notify event_id) s w = (
  shown notify status err event_id,
  record s { check = update_status status err s.check; initialized = true },
  w,
)
advance env (numbering status message event_id) s w =
    let (sequence, w') = next_sequence event_id s w in
    (sending status message event_id sequence, s, w')
advance env (sending status message event_id sequence) s w = (
  acting status message event_id,
  s,
  record w {
    notifications =
        send env.now
          (status_notification s.actions.check_name s.notifiers status message event_id sequence [])
          w.notifications;
  },
)
advance env (acting status message event_id) s w =
    let (s', w') = run_actions env status message event_id s w in (acted status event_id, s', w')
advance env (releasing event_id) s w = (idle, s, release_event event_id s w)
