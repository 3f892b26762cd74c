-- ===== src/Actions/Cooldown.antt =====
-- actions.go: how often an action's command starts.
use health_go.Base.{
  String, true, false, ◌&&◌, Option, none, some, List, [], ◌∷◌, ℕ, ◌+◌, ◌≤◌, ◌<◌, ◌≡◌, refl, ◌==◌,
  arith, if◌then◌else◌, is_some, Bool-cases, inl, inr, ◌⊎◌,
}
use health_go.Base.Int.{pos, leb_ℤ, ltb_ℤ, since, max_int}
use health_go.Types.{Status, passing, warning, critical, timeout, eq_status, Time, Action}
use health_go.Events.{EventTracker}
use health_go.Actions.{ActionRunner, Job, success, failure, warn, time_out, run_timeout}

-- A command never runs without a deadline that lies in the future.
pub run_timeout-positive : (a : Action) → ltb_ℤ (pos 0) (run_timeout a) ≡ true
unfolding run_timeout
run_timeout-positive a = ground arith

-- a result that reached its threshold, with its message and event ID
pub record Result : Type 0 where
  pub status : Status
  pub now : Time
  pub message : String
  pub event_id : String

-- the handler that the status updater calls for a status
unfoldable pub respond :
    Status
    → Time
    → String
    → String
    → ActionRunner
    → EventTracker
    → ActionRunner × EventTracker × Option Job
respond passing = success
respond warning = warn
respond critical = failure
respond timeout = time_out
respond _ = λ now message event_id r t. (r, t, none)

-- when a failure action's command starts, over a sequence of results
unfoldable pub failure_starts : List Result → ActionRunner → EventTracker → List Time
failure_starts [] r t = []
failure_starts (x ∷ xs) r t =
    let (r', t', job) = respond x.status x.now x.message x.event_id r t in
    let rest = failure_starts xs r' t' in
    if eq_status x.status critical && is_some job then x.now ∷ rest else rest

-- each time is at least `d` after the one before it, the first after `last`
abbrev pub Spaced : ℕ → Time → List Time → Type 0
Spaced d last [] = Unit
Spaced d last (x ∷ xs) = (last + d ≤ x) × Spaced d x xs

-- the failure action: it has a command and a cooldown of `d`, and last ran at `last`
abbrev pub Cooling : ℕ → Time → ActionRunner → Type 0
Cooling d last r =
    (a : Action) × (r.failure_action ≡ some a)
    × (a.unlock_only_after_healthy ≡ false)
    × (a.unlock_after_duration ≡ pos d)
    × ((a.command == "") ≡ false)
    × (a.can_run ≡ false)
    × (a.last_run ≡ last)

other-failure_action :
    (status : Status) (now : Time) (message event_id : String) (r : ActionRunner) (t : EventTracker)
    → eq_status status critical ≡ false
    → (respond status now message event_id r t).0.failure_action ≡ r.failure_action
unfolding respond success warn time_out
other-failure_action passing now message event_id r t other = refl
other-failure_action critical now message event_id r t other = cc
other-failure_action _ now message event_id r t other = refl

-- how far the clock must be for a cooldown to be over
cooldown_over :
    (d last now : ℕ) → leb_ℤ (pos d) (since now last) ≡ true → d ≤ max_int → 0 < d → last + d ≤ now
cooldown_over d last now over fits some_time = ground arith

module _ (d : ℕ) (last now : Time) (message event_id : String) (r : ActionRunner)
    (t : EventTracker) where
  failure-over :
      Cooling d last r
      → leb_ℤ (pos d) (since now last) ≡ true
      → (is_some (failure now message event_id r t).2 ≡ true)
        × Cooling d now (failure now message event_id r t).0
  unfolding failure
  failure-over (a, here, by_time, wait, command, idle, ran) over = (
    ground arith,
    (
      record a { can_run = false; last_run = now },
      ground arith,
      by_time,
      wait,
      command,
      refl,
      refl,
    ),
  )

  failure-early :
      Cooling d last r
      → leb_ℤ (pos d) (since now last) ≡ false
      → (is_some (failure now message event_id r t).2 ≡ false)
        × Cooling d last (failure now message event_id r t).0
  unfolding failure
  failure-early (a, here, by_time, wait, command, idle, ran) early =
      (ground arith, (a, ground arith, by_time, wait, command, idle, ran))

module _ (d : ℕ) (some_time : 0 < d) (fits : d ≤ max_int) where
  respond-Cooling :
      (status : Status) (last now : Time) (message event_id : String) (r : ActionRunner)
      (t : EventTracker)
      → Cooling d last r
      → let (r', t', job) = respond status now message event_id r t in
        let starts = eq_status status critical && is_some job in
        ((starts ≡ true) × (last + d ≤ now) × Cooling d now r')
        ⊎ ((starts ≡ false) × Cooling d last r')
  unfolding respond
  respond-Cooling critical last now message event_id r t c =
      elim (Bool-cases (leb_ℤ (pos d) (since now last))) [
        | inl over ↦
            let (starts, next) = failure-over d last now message event_id r t c over in
            inl (starts, cooldown_over d last now over fits some_time, next)
        | inr early ↦ inr (failure-early d last now message event_id r t c early)
      ]
  respond-Cooling passing last now message event_id r t c =
      inr (refl, rw (other-failure_action passing now message event_id r t refl) c)
  respond-Cooling warning last now message event_id r t c =
      inr (refl, rw (other-failure_action warning now message event_id r t refl) c)
  respond-Cooling timeout last now message event_id r t c =
      inr (refl, rw (other-failure_action timeout now message event_id r t refl) c)
  respond-Cooling _ last now message event_id r t c = inr (refl, c)

  -- Two starts of the failure action's command are at least its cooldown apart, and the first one is
  -- that long after the last run, whatever results come in between and however the clock moves. The
  -- action has a command, a positive cooldown below 2^63, is locked, and is not one of
  -- UnlockOnlyAfterHealthy.
  pub failure_starts-Spaced :
      (xs : List Result) (last : Time) (r : ActionRunner) (t : EventTracker)
      → Cooling d last r
      → Spaced d last (failure_starts xs r t)
  unfolding failure_starts
  failure_starts-Spaced [] last r t cooling = tt
  failure_starts-Spaced (x ∷ xs) last r t cooling =
      let (r', t', job) = respond x.status x.now x.message x.event_id r t in
      elim (respond-Cooling x.status last x.now x.message x.event_id r t cooling) [
        | inl (starts, spaced, next) ↦ rw starts (spaced, failure_starts-Spaced xs x.now r' t' next)
        | inr (none_starts, next) ↦ rw none_starts (failure_starts-Spaced xs last r' t' next)
      ]
