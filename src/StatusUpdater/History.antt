-- ===== src/StatusUpdater/History.antt =====
-- status.go: the status of a check is a function of the results so far. A history lists them, the
-- latest first, each with the world that it found: what other checks did in between is arbitrary.
use health_go.Base.{
  String, Bool, false, ◌||◌, List, [], ◌∷◌, ℕ, suc, ◌≤◌, ◌≡◌, arith, leb, if◌then◌else◌,
}
use health_go.Base.Int.{pos, max_int}
use health_go.Base.Lists.{length}
use health_go.Types.{Status, passing, warning, critical, timeout, Error}
use health_go.Actions.{ActionRunner}
use health_go.StatusUpdater.{new_status_updater_internal, StatusUpdater, World, Env, update}

-- the arguments of one `update`
pub record Report : Type 0 where
  pub env : Env
  pub status : Status
  pub error : Error
  pub quiet : Bool

abbrev pub History : Type 0
History = List (Report × World)

-- a result counts as a success, as a failure, or not at all
pub data Kind : Type 0 where
  healthy failing ignored : Kind

abbrev pub kind : Status → Kind
kind passing = healthy
kind warning = failing
kind critical = failing
kind timeout = failing
kind _ = ignored

abbrev pub replay : History → StatusUpdater → StatusUpdater
replay [] s = s
replay ((r, w) ∷ older) s = (update r.env r.status r.error r.quiet (replay older s) w).0

-- how many results of the kind came last, with none of the other kind among them
abbrev pub extend : Kind → Kind → ℕ → ℕ
extend healthy healthy n = suc n
extend failing failing n = suc n
extend _ ignored n = n
extend _ _ n = 0

unfoldable pub streak : Kind → History → ℕ
streak k [] = 0
streak k ((r, w) ∷ older) = extend k (kind r.status) (streak k older)

-- whether a result of the status, after an older history, reaches the threshold for it
abbrev pub reaches : ℕ → ℕ → ℕ → Status → History → Bool
reaches to_pass to_warn to_fail passing h = leb to_pass (suc (streak healthy h))
reaches to_pass to_warn to_fail warning h = leb to_warn (suc (streak failing h))
reaches to_pass to_warn to_fail critical h = leb to_fail (suc (streak failing h))
reaches to_pass to_warn to_fail timeout h = leb to_fail (suc (streak failing h))
reaches to_pass to_warn to_fail _ h = false

-- the status to show after a history: that of the latest result that reached its threshold, critical
-- before there is one
unfoldable pub shown : ℕ → ℕ → ℕ → History → Status
shown to_pass to_warn to_fail [] = critical
shown to_pass to_warn to_fail ((r, w) ∷ older) =
    if reaches to_pass to_warn to_fail r.status older
    then r.status
    else shown to_pass to_warn to_fail older

-- whether a result has reached its threshold yet
unfoldable pub decided : ℕ → ℕ → ℕ → History → Bool
decided to_pass to_warn to_fail [] = false
decided to_pass to_warn to_fail ((r, w) ∷ older) =
    reaches to_pass to_warn to_fail r.status older || decided to_pass to_warn to_fail older

-- The fields of the updater against the history.
pub record Follows (to_pass to_warn to_fail : ℕ) (h : History) (s : StatusUpdater) : Type 0 where
  pub successes : s.successes ≡ pos (streak healthy h)
  pub failures : s.failures ≡ pos (streak failing h)
  pub status : s.check.status ≡ shown to_pass to_warn to_fail h
  pub initialized : s.initialized ≡ decided to_pass to_warn to_fail h
  pub to_pass_kept : s.successes_before_passing ≡ pos to_pass
  pub to_warn_kept : s.failures_before_warning ≡ pos to_warn
  pub to_fail_kept : s.failures_before_critical ≡ pos to_fail

pub streak-le : (k : Kind) (h : History) → streak k h ≤ length h
unfolding streak
streak-le k [] = omega arith
streak-le k ((r, w) ∷ older) = ground (arith, streak-le k older)

module _ (to_pass to_warn to_fail : ℕ) where
  pub step-Follows :
      (env : Env) (status : Status) (error : Error) (quiet : Bool) (w : World) (older : History)
      (s : StatusUpdater)
      → suc (length older) ≤ max_int
      → Follows to_pass to_warn to_fail older s
      → Follows to_pass to_warn to_fail
          ((record { env = env; status = status; error = error; quiet = quiet }, w) ∷ older)
          (update env status error quiet s w).0
  unfolding update streak shown decided
  step-Follows env passing error quiet w older s fits f =
      ground (arith, streak-le healthy older, streak-le failing older)
  step-Follows env _ error quiet w older s fits f =
      ground (arith, streak-le healthy older, streak-le failing older)

  -- From a new updater on, and whatever the world is at each result, the updater shows the latest result
  -- that reached its threshold, and its counters are the lengths of the current runs of successes and of
  -- failures, for any thresholds and at most 2^63 - 1 results.
  pub replay-Follows :
      (h : History) (actions : ActionRunner) (notifiers : List String) (tracked : Bool)
      → length h ≤ max_int
      → Follows to_pass to_warn to_fail h (
          replay h (
            new_status_updater_internal
              (pos to_pass)
              (pos to_warn)
              (pos to_fail)
              actions
              notifiers
              tracked))
  unfolding new_status_updater_internal streak shown decided
  replay-Follows [] actions notifiers tracked fits = ground arith
  replay-Follows ((r, w) ∷ older) actions notifiers tracked fits =
      step-Follows r.env r.status r.error r.quiet w older _ fits
        (replay-Follows older actions notifiers tracked (omega arith))
