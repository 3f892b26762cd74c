-- ===== src/Health.antt =====
-- health.go and options.go: the container. Status merges the checks, HandlerFunc turns the result
-- into an HTTP code, Register adds a check.
pub mod Severity
pub mod Registration
pub mod Container
pub mod Service
pub mod Interleaved
pub mod Endpoint
pub mod Restored
pub mod Restart
pub mod EarlyChecks
use health_go.Base.{
  String, Bool, true, false, not, ◌||◌, Option, none, some, List, [], ◌∷◌, ◌++◌, ℕ, ◌==◌, ltb,
  if◌then◌else◌, is_some,
}
use health_go.Base.Int.{ℤ, pos, ltb_ℤ, leb_ℤ, is_zero, cmp_or}
use health_go.Base.GoMap.{GoMap, get, put}
use health_go.Types.{
  Status, passing, warning, critical, timeout, initializing, unknown, eq_status, Error, Time,
  CheckState, minimum_interval, default_interval,
}
use health_go.Actions.{new_action_runner}
use health_go.StatusUpdater.{
  StatusUpdater, World, Env, CheckStatus, new_status_updater, new_status_updater_internal,
  restore_state,
}
use health_go.Check.{CheckConfig, CheckRuntime, Loops, start}

unfoldable pub severity : Status → ℕ
severity passing = 0
severity warning = 1
severity initializing = 2
severity timeout = 3
severity critical = 4
severity (unknown s) = 4

-- one goroutine of `Status`: the worst status wins
unfoldable pub merge_status : Status → Status → Status
unfolding severity
merge_status status check_status =
    if ltb (severity status) (severity check_status) then check_status else status

-- an error of the check is kept under its name
unfoldable pub add_failure : String → Error → GoMap String → GoMap String
add_failure name none failures = failures
add_failure name (some e) failures = put name e failures

-- the goroutines merge the checks in some order, which the list is; `failures` holds the errors
unfoldable pub merge : List (String × CheckStatus) → Status × GoMap String → Status × GoMap String
unfolding merge_status add_failure
merge [] acc = acc
merge ((name, c) ∷ rest) (status, failures) =
    merge rest (merge_status status c.status, add_failure name c.error failures)

-- `Health.Status`, without the time and the system metrics
unfoldable pub overall : List (String × CheckStatus) → Status × GoMap String
unfolding merge
overall checks = merge checks (passing, [])

-- `HandlerFunc`
unfoldable pub http_code : Status → ℕ
http_code status =
    if eq_status status warning then 429 else if eq_status status passing then 200 else 503

-- `Register`: the interval that is used for the one that was given
unfoldable pub register_interval : ℤ → ℤ
register_interval interval =
    if leb_ℤ interval (pos 0)
    then default_interval
    else if ltb_ℤ interval minimum_interval
    then minimum_interval
    else interval

unfoldable pub register_timeout : ℤ → ℤ
register_timeout limit = if is_zero limit then pos 2000000000 else limit

pub data RegisterError : Type 0 where
  unnamed : RegisterError
  already_registered : String → RegisterError

pub record Health : Type 0 where
  pub checks : GoMap CheckConfig
  pub world : World
  pub loops : Loops
  pub system_info_enabled : Bool
  pub max_concurrent : ℤ

-- the updater of a new check: restored silently from its saved state, or announced
unfoldable pub create_updater :
    Env → CheckConfig → Option CheckState → World → StatusUpdater × World
create_updater env c saved w =
    let to_pass = cmp_or c.successes_before_passing (pos 3) in
    let to_warn = cmp_or c.failures_before_warning (pos 1) in
    let to_fail = cmp_or c.failures_before_critical (pos 1) in
    let runner =
      new_action_runner c.name c.success_action c.warning_action c.failure_action
        c.timeout_action in
    if is_some saved
    then restore_state env saved
        (new_status_updater_internal to_pass to_warn to_fail runner c.notifiers true) w
    else new_status_updater env to_pass to_warn to_fail runner c.notifiers true w

-- the check that is stored: its configuration with the normal values, its updater and its loop
unfoldable pub configure : CheckConfig → StatusUpdater → Option CheckRuntime → CheckConfig
unfolding register_interval register_timeout
configure c s runtime = record c {
  interval = register_interval c.interval;
  timeout = register_timeout c.timeout;
  status = some s;
  runtime = runtime;
}

-- `load` is the persister's LoadCheckState: what it returns beside an error, or nothing
unfoldable pub register :
    Env → (String → Option CheckState) → CheckConfig → Health → Health × Option RegisterError
unfolding create_updater configure
register env load c h =
    let (s, w) = create_updater env c (load c.name) h.world in
    let (runtime, loops) = start c.runtime h.loops in
    let check = configure c s runtime in
    if c.name == ""
    then (h, some unnamed)
    else if is_some (get c.name h.checks)
    then (h, some (already_registered c.name))
    else (record h { checks = put c.name check h.checks; world = w; loops = loops }, none)
