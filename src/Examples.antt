-- ===== src/Examples.antt =====
-- _examples: what the programs of the examples give to a container. A check is registered with its
-- function; the functions are the ready-made checks and a few literals.
pub mod Simple
pub mod Registering
pub mod Restoring
pub mod Keeping
pub mod Turns
pub mod Persistent
use health_go.Base.{
  String, Bool, true, false, Option, none, some, List, [], ◌∷◌, ℕ, ◌⊎◌, inl, inr, ◌%◌, ◌/◌, suc,
  get_or, if◌then◌else◌, ◌==◌,
}
use health_go.Base.Int.{ℤ, pos, negsuc, sub_ℕ, is_zero, ltb_ℤ}
use health_go.Types.{Time, second}
use health_go.StatusUpdater.{Env}
use health_go.Notifications.{Notifications}
use health_go.Maintenance.{File, maintenance_check}
use health_go.Check.{CheckResponse, CheckConfig, Outcome, response, expired}
use health_go.Checkers.{Reply, respond}
use health_go.Checkers.Sql
use health_go.Checkers.Http
use health_go.Health.{Health, RegisterError}
use health_go.Health.Service
use health_go.Health.Container.{Container, register_check}

-- the function of a check: the ready-made ones with their configurations, and those that are
-- written in place; `fails_when` tests `time.Now().Unix()`
pub data CheckFunction : Type 0 where
  maintenance : String → CheckFunction
  http : Http.Config → CheckFunction
  postgres mysql : Sql.Config → CheckFunction
  fails : String → CheckFunction
  succeeds : CheckFunction
  fails_when : (ℤ → Bool) → String → CheckFunction

-- `CheckConfig` with its field `Check`
abbrev pub Example : Type 0
Example = CheckConfig × CheckFunction

-- the fields of a literal that are not given
abbrev pub blank : String → CheckConfig
blank name = record {
  name = name;
  interval = pos 0;
  timeout = pos 0;
  skip_on_err = false;
  has_check = true;
  status = none;
  successes_before_passing = pos 0;
  failures_before_warning = pos 0;
  failures_before_critical = pos 0;
  success_action = none;
  warning_action = none;
  failure_action = none;
  timeout_action = none;
  notifiers = [];
  runtime = none;
}

-- the maintenance check, which the programs share
abbrev pub maintenance_example : Example
maintenance_example = (
  record (blank "maintenance") { interval = pos 1000000000; successes_before_passing = pos 1 },
  maintenance "/var/lib/myapp/maintenance",
)

-- `Unix`: the zero time is 62135596800 seconds before 1970
abbrev pub unix : Time → ℤ
unix now = sub_ℕ (now / second) 62135596800

-- Go's `%`, with the sign of the dividend
abbrev pub rem : ℤ → ℕ → ℤ
rem (pos x) n = pos (x % n)
rem (negsuc x) n = sub_ℕ 0 (suc x % n)

-- what a function finds when it runs: the clock, the file at a path, and the answers of the clients
pub record Surroundings : Type 0 where
  pub now : Time
  pub file : String → File
  pub http_client : Http.Log → Http.Call → Reply ℕ
  pub sql_client : Sql.Log → Sql.Call → Reply Unit

-- a function runs; only the maintenance check uses the sender of the container
unfoldable pub run_function :
    Surroundings → CheckFunction → Notifications → CheckResponse × Notifications
run_function s (maintenance path) n =
    let (res, kept) = maintenance_check s.now (s.file path) (some n) in (res, get_or kept n)
run_function s (http c) n = ((Http.check s.http_client c).0, n)
run_function s (postgres c) n = ((Sql.postgres_check s.sql_client c).0, n)
run_function s (mysql c) n = ((Sql.mysql_check s.sql_client c).0, n)
run_function s (fails message) n = (respond (some message), n)
run_function s succeeds n = (respond none, n)
run_function s (fails_when bad message) n =
    (respond (if bad (unix s.now) then some message else none), n)

module _ {S : Type 0} where
  -- `if err := h.Register(...); err != nil { log.Fatalf(...) }`, for one check after the other; a
  -- registration has the clock and the UUID of its name
  unfoldable pub register_or_exit :
      (String → Env) → List Example → S → Container S → Container S ⊎ RegisterError
  unfolding register_check
  register_or_exit envs [] s h = inl h
  register_or_exit envs ((c, f) ∷ es) s h =
      let (h', e) = register_check (envs c.name) c s h in
      let rest = register_or_exit envs es s h' in
      elim e [ none ↦ rest | some refusal ↦ inr refusal ]

  -- `h.Register(...)`, whose error is dropped, for one check after the other
  unfoldable pub register_all : (String → Env) → List Example → S → Container S → Container S
  unfolding register_check
  register_all envs [] s h = h
  register_all envs ((c, f) ∷ es) s h =
      register_all envs es s (register_check (envs c.name) c s h).0

-- the function that is registered under a name
unfoldable pub function_of : String → List Example → Option CheckFunction
function_of name [] = none
function_of name ((c, f) ∷ es) =
    let rest = function_of name es in if c.name == name then some f else rest

-- a function that ends in its time, or after it; the loops of the checks; the receiver of the
-- notifications
pub data Turn : Type 0 where
  answered late : Env → Surroundings → String → Turn
  paused started : String → Turn
  received : Notifications → Turn

-- a run: what the function does to the sender, then what its loop sees
abbrev pub run_events : Env → String → Outcome → Notifications → List Service.Event
run_events env name outcome n = Service.received n ∷ Service.ran env name outcome ∷ []

unfoldable pub turn_events : List Example → Turn → Health → List Service.Event
unfolding run_function function_of
turn_events examples (answered env s name) h = elim (function_of name examples) [
  | none ↦ []
  | some f ↦
      let (res, n) = run_function s f h.world.notifications in run_events env name (response res) n
]
turn_events examples (late env s name) h = elim (function_of name examples) [
  | none ↦ []
  | some f ↦ let (res, n) = run_function s f h.world.notifications in run_events env name expired n
]
turn_events examples (paused name) h = Service.paused name ∷ []
turn_events examples (started name) h = Service.started name ∷ []
turn_events examples (received n) h = Service.received n ∷ []

-- the container while the program serves
unfoldable pub take_turns : List Example → List Turn → Health → Health
unfolding turn_events
take_turns examples [] h = h
take_turns examples (t ∷ ts) h = take_turns examples ts (Service.serve (turn_events examples t h) h)
