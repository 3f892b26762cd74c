-- ===== src/Health/Interleaved.antt =====
-- health.go, check.go and status.go: a container whose checks run at the same time, a step of an update at a time.
pub mod Settled
pub mod Flight
use health_go.Base.{String, Bool, Option, none, some, List, [], ◌∷◌, is_some, get_or, false, ◌≡◌}
use health_go.Base.Int.{pos}
use health_go.Base.GoMap.{GoMap, get}
use health_go.StatusUpdater.{StatusUpdater, new_status_updater_internal}
use health_go.StatusUpdater.Steps.{Phase}
use health_go.StatusUpdater.Steps.Interleaving.{Running}
use health_go.Actions.{new_action_runner}
use health_go.Check.{CheckConfig}
use health_go.Health.{Health}

-- what stands at a name without a check; no step reads it
abbrev pub nobody : StatusUpdater
nobody =
    new_status_updater_internal (pos 0) (pos 0) (pos 0) (new_action_runner "" none none none none)
      [] false

abbrev pub updater_of : Option CheckConfig → StatusUpdater
updater_of none = nobody
updater_of (some c) = get_or c.status nobody

abbrev pub registered_in : Health → String → Bool
registered_in h name = is_some (get name h.checks)

-- the updaters that the checks of a container point to, with no update under way
abbrev pub system_of : Health → Running
system_of h = record {
  updater = λ name. updater_of (get name h.checks);
  phase = λ name. Phase.idle;
  world = h.world;
}

unfoldable pub point : (String → StatusUpdater) → GoMap CheckConfig → GoMap CheckConfig
point updater [] = []
point updater ((name, c) ∷ cs) =
    (name, record c { status = some (updater name) }) ∷ point updater cs

-- the container as the system leaves it
abbrev pub container_of : Health → Running → Health
container_of h s = record h { checks = point s.updater h.checks; world = s.world }
