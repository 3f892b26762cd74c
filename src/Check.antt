-- ===== src/Check.antt =====
-- check.go, and CheckConfig of types.go: one run of a check function, and the start and pause of
-- the loop that runs it. The check function itself is the user's: its outcome is an argument.
pub mod Outcomes
pub mod Pausing
pub mod Loop
use health_go.Base.{
  String, Bool, true, false, not, ◌||◌, Option, none, some, List, [], ◌∷◌, ◌++◌, ℕ, suc, ◌%◌, eqb,
  if◌then◌else◌, is_some,
}
use health_go.Base.Int.{ℤ, pos, pos_part, is_zero}
use health_go.Types.{Status, passing, warning, critical, timeout, status_text, Error, Action}
use health_go.StatusUpdater.{StatusUpdater, World, Env, update}

pub record CheckResponse : Type 0 where
  pub error : Error
  pub is_warning : Bool
  pub no_notification : Bool

-- what the `select` of a run sees first: the response, or the end of the timeout
pub data Outcome : Type 0 where
  response : CheckResponse → Outcome
  expired : Outcome

-- the state of the loop: the channel whose closing ends it is named by a number
pub record CheckRuntime : Type 0 where
  pub paused : Bool
  pub paused_chan : ℕ

-- `has_check` is `Check != nil`
pub record CheckConfig : Type 0 where
  pub name : String
  pub interval : ℤ
  pub timeout : ℤ
  pub skip_on_err : Bool
  pub has_check : Bool
  pub status : Option StatusUpdater
  pub successes_before_passing : ℤ
  pub failures_before_warning : ℤ
  pub failures_before_critical : ℤ
  pub success_action : Option Action
  pub warning_action : Option Action
  pub failure_action : Option Action
  pub timeout_action : Option Action
  pub notifiers : List String
  pub runtime : Option CheckRuntime

unfoldable pub response_status : Bool → CheckResponse → Status
response_status skip_on_err res =
    if is_some res.error
    then if res.is_warning || skip_on_err then warning else critical
    else passing

unfoldable pub report_outcome : Env → Bool → Outcome → StatusUpdater → World → StatusUpdater × World
unfolding response_status
report_outcome env skip_on_err expired s w =
    update env timeout (some (status_text timeout)) false s w
report_outcome env skip_on_err (response res) s w =
    update env (response_status skip_on_err res) res.error res.no_notification s w

-- one run; a check with no function does nothing
unfoldable pub check : Env → Bool → Bool → Outcome → StatusUpdater → World → StatusUpdater × World
unfolding report_outcome
check env has_check skip_on_err outcome s w =
    if has_check then report_outcome env skip_on_err outcome s w else (s, w)

-- the wait before the second run, from a random number; `interval` is positive or zero
unfoldable pub jitter : ℕ → ℤ → ℕ
jitter random interval = if is_zero interval then 0 else random % pos_part interval

-- the loops that were started and not yet told to end, each by its channel, and the next channel
pub record Loops : Type 0 where
  pub next_chan : ℕ
  pub running : List ℕ

-- `close`: the loops on this channel end
unfoldable pub without : ℕ → List ℕ → List ℕ
without c [] = []
without c (x ∷ xs) = let rest = without c xs in if eqb x c then rest else x ∷ rest

unfoldable pub start : Option CheckRuntime → Loops → Option CheckRuntime × Loops
start runtime loops = (
  some (record { paused = false; paused_chan = loops.next_chan }),
  record { next_chan = suc loops.next_chan; running = loops.running ++ loops.next_chan ∷ [] },
)

unfoldable pub pause : Option CheckRuntime → Loops → Option CheckRuntime × Loops
unfolding without
pause none loops = (none, loops)
pause (some runtime) loops =
    if not runtime.paused
    then (
      some (record runtime { paused = true }),
      record loops { running = without runtime.paused_chan loops.running },
    )
    else (some runtime, loops)
