-- ===== src/Health/Endpoint/Unavailable.antt =====
-- health.go, HandlerFunc, with check.go: the answers of a container while one of its checks does not
-- succeed.
use health_go.Base.{String, false, none, some, [], ◌≡◌, ◌≢◌, refl, arith, ◌⊎◌, ◌==◌}
use health_go.Base.GoMap.{get, get-put_same, get-empty}
use health_go.Types.{Time, passing, eq_status}
use health_go.Events.{active_events}
use health_go.StatusUpdater.{Env, new_status_updater, new_status_updater_internal}
use health_go.Check.{CheckConfig}
use health_go.Health.{Health, register, configure, create_updater}
use health_go.Health.Container.{Container}
use health_go.Health.Service.Serving.{IsServing}
use health_go.Health.Service.Unhealthy.{IsUnhealthy}
use health_go.Health.Endpoint.{Check, Runtime, handler_func, respond}
use health_go.Health.Endpoint.Response.{serving_answer}

-- A check that is new is not passing before its first run.
pub register-unhealthy :
    (env : Env) (c : CheckConfig) (h : Health)
    → (c.name == "") ≡ false
    → get c.name h.checks ≡ none
    → IsUnhealthy c.name (register env (λ name. none) c h).0
unfolding register configure create_updater new_status_updater new_status_updater_internal
register-unhealthy env c h named free =
    rw (named, free)
      (record {
        config = _;
        updater = _;
        found = get-put_same c.name _ h.checks;
        status = refl;
        unhealthy = refl;
      })

-- A tracker holds an event for a check that is not passing.
pub IsUnhealthy-active :
    (name : String) (h : Health)
    → IsServing h
    → IsUnhealthy name h
    → active_events h.world.tracker ≢ []
unfolding active_events
IsUnhealthy-active name h serving bad none_held =
    let r = serving.entry name bad.config bad.found in
    let same : r.updater ≡ bad.updater = ground (arith, r.status, bad.status) in
    let free : get name h.world.tracker.event_ids ≡ none = rw (none_held, get-empty) refl in
    let failing : eq_status r.updater.check.status passing ≡ false = rw same bad.unhealthy in
    ground (arith, r.agrees, free, failing)

-- the request is answered, and not with 200
abbrev pub IsUnavailable :
    {S B : Type 0} → (Check → B ⊎ String) → Runtime → Time → Container S → Type 0
IsUnavailable marshal runtime now h =
    (c : Check) × (handler_func marshal runtime now h ≡ some (respond marshal c))
    × ((respond marshal c).code ≢ 200)

pub unhealthy-IsUnavailable :
    {S B : Type 0} (marshal : Check → B ⊎ String) (runtime : Runtime) (now : Time) (h : Container S)
    (name : String)
    → IsServing h.health
    → IsUnhealthy name h.health
    → IsUnavailable marshal runtime now h
unhealthy-IsUnavailable marshal runtime now h name serving bad =
    let (c, checked, answered, iff) = serving_answer marshal runtime now h serving in
    (c, answered, λ ok. IsUnhealthy-active name h.health serving bad (iff.0 ok).1)
