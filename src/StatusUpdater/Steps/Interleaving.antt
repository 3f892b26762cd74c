-- ===== src/StatusUpdater/Steps/Interleaving.antt =====
-- status.go: the updates of all checks of a container, a step at a time, in any order.
use health_go.Base.{String, Bool, true, ◌==◌, if◌then◌else◌, ◌≡◌}
use health_go.Types.{Status, Error}
use health_go.Events.Uuid.{IsUuid}
use health_go.Notifications.{Notifications}
use health_go.StatusUpdater.{StatusUpdater, World, Env}
use health_go.StatusUpdater.Steps.{Phase, idle, begin, advance}

-- the value at one name
abbrev pub at : {A : Type 0} → (String → A) → String → A → String → A
at f k a j = if k == j then a else f j

-- The updaters by the names of their checks, and how far the update of each is; what they share.
pub record Running : Type 0 where
  pub updater : String → StatusUpdater
  pub phase : String → Phase
  pub world : World

-- the state after a step of one check
abbrev pub with_check : String → Running → Phase × StatusUpdater × World → Running
with_check name s (p, u, w) = record {
  updater = at s.updater name u;
  phase = at s.phase name p;
  world = w;
}

abbrev pub after_begin : String → Status → Error → Bool → Running → Running
after_begin name status err quiet s =
    let (p, u) = begin status err quiet (s.updater name) in with_check name s (p, u, s.world)

abbrev pub after_step : String → Env → Running → Running
after_step name env s = with_check name s (advance env (s.phase name) (s.updater name) s.world)

-- A registered check that has no update under way begins one, with the result of a run; its update goes a step
-- further; the sender is used by the receiver, or switched on or off. `known` tells the registered names.
pub data Step (known : String → Bool) (s : Running) : Running → Type 0 where
  begun :
      (name : String) (status : Status) (err : Error) (quiet : Bool)
      → known name ≡ true
      → s.phase name ≡ idle
      → Step known s (after_begin name status err quiet s)
  advanced :
      (name : String) (env : Env)
      → known name ≡ true
      → IsUuid env.uuid
      → Step known s (after_step name env s)
  received :
      (n : Notifications) → Step known s (record s { world = record s.world { notifications = n } })

pub data Reach (known : String → Bool) (s : Running) : Running → Type 0 where
  start : Reach known s s
  later : {t u : Running} → Reach known s t → Step known t u → Reach known s u

pub Reach-trans :
    {known : String → Bool} {s t u : Running} → Reach known s t → Reach known t u → Reach known s u
Reach-trans r start = r
Reach-trans r (later q st) = later (Reach-trans r q) st
