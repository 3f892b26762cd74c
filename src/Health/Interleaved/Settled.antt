-- ===== src/Health/Interleaved/Settled.antt =====
-- health.go and status.go: the container after updates that ran at the same time.
use health_go.Base.{
  String, true, false, Option, none, some, List, [], ◌∷◌, ◌≡◌, refl, ◌∙◌, sym, ap, arith, ◌↔◌,
  is_some, eq_iff, inl,
}
use health_go.Base.Int.{ℤ}
use health_go.Base.Lists.{All}
use health_go.Base.GoMap.{GoMap, get, IsMap}
use health_go.Types.{Status}
use health_go.Events.{active_events}
use health_go.StatusUpdater.{StatusUpdater}
use health_go.StatusUpdater.Steps.{idle}
use health_go.StatusUpdater.Steps.Coherent.{IsCoherent}
use health_go.StatusUpdater.Steps.Interleaving.{Running, Reach}
use health_go.StatusUpdater.Steps.Agreement.{IsOrderly, Reach-IsOrderly}
use health_go.Check.{CheckConfig}
use health_go.Health.{Health, http_code}
use health_go.Health.Service.{Event, serve, status}
use health_go.Health.Service.Serving.{IsServing, IsUsual}
use health_go.Health.Service.Runs.{service-IsServing}
use health_go.Health.Container.{Container, new, operations}
use health_go.Health.Service.Options.{Setting, options_of, saved_tracker}
use health_go.Health.Service.Answer.{answer-ok_iff}
use health_go.Health.Interleaved.{system_of, container_of, registered_in, point}

module _ (updater : String → StatusUpdater) where
  pointed : String → Option CheckConfig → Option CheckConfig
  pointed name none = none
  pointed name (some c) = some (record c { status = some (updater name) })

  pointed-some :
      (name : String) (o : Option CheckConfig) {c : CheckConfig}
      → pointed name o ≡ some c
      → (d : CheckConfig) × (o ≡ some d) × (record d { status = some (updater name) } ≡ c)
  unfolding pointed
  pointed-some name none e = cc
  pointed-some name (some d) e = (d, refl, cc)

  pointed-none : (name : String) (o : Option CheckConfig) → pointed name o ≡ none → o ≡ none
  unfolding pointed
  pointed-none name none e = refl
  pointed-none name (some d) e = cc

  get-point :
      (name : String) (cs : GoMap CheckConfig)
      → get name (point updater cs) ≡ pointed name (get name cs)
  unfolding get point pointed
  get-point name [] = refl
  get-point name ((j, c) ∷ cs) = ground (arith, get-point name cs, eq_iff j name)

  point-IsMap : (cs : GoMap CheckConfig) → IsMap cs → IsMap (point updater cs)
  unfolding point pointed
  point-IsMap [] m = tt
  point-IsMap ((j, c) ∷ cs) m = (get-point j cs ∙ ap (pointed j) m.0, point-IsMap cs m.1)

some_of : {A : Type 0} (o : Option A) → is_some o ≡ true → (a : A) × (o ≡ some a)
some_of none here = cc
some_of (some a) here = (a, refl)

pub none_of : {A : Type 0} (o : Option A) → is_some o ≡ false → o ≡ none
none_of none missing = refl
none_of (some a) missing = cc

pub system_of-IsOrderly : (h : Health) → IsServing h → IsOrderly (registered_in h) (system_of h)
system_of-IsOrderly h serving = record {
  valid = serving.valid;
  coherent = λ name here.
      let (c, found) = some_of (get name h.checks) here in
      let r = serving.entry name c found in
      rw (found, r.status)
        (record { named = r.same_name; tracked = r.tracked; agrees = r.agrees; knows = tt });
  absent = λ name missing. serving.absent name (none_of (get name h.checks) missing);
}

-- When no update is under way, the container serves again.
container_of-IsServing :
    (h : Health) (s : Running)
    → IsServing h
    → IsOrderly (registered_in h) s
    → ((name : String) → registered_in h name ≡ true → s.phase name ≡ idle)
    → IsServing (container_of h s)
unfolding pointed
container_of-IsServing h s serving o settled = record {
  distinct = point-IsMap s.updater h.checks serving.distinct;
  valid = o.valid;
  entry = λ name c found.
      let (d, was, same) =
        pointed-some s.updater name (get name h.checks)
          (sym (get-point s.updater name h.checks) ∙ found) in
      let r = serving.entry name d was in
      let here : registered_in h name ≡ true = rw was refl in
      let k : IsCoherent name idle (s.updater name) s.world.tracker =
        rw (settled name here) at (o.coherent name here) in
      rw (← same) (record {
        updater = s.updater name;
        status = refl;
        own_name = r.own_name;
        same_name = k.named;
        tracked = k.tracked;
        agrees = k.agrees;
      });
  absent = λ name missing. o.absent name (
      rw
        (pointed-none s.updater name (get name h.checks)
          (sym (get-point s.updater name h.checks) ∙ missing))
        refl);
}

-- The runs of the checks of a container that New returned, with any options but WithChecks and with no
-- saved state of the tracker, may overlap in any way once they are registered, an update of a check being under
-- way while others go on. Whenever no update is under way, the container has an answer, and the
-- endpoint answers 200 exactly when the tracker holds no event of any check. UUIDs have sixteen bytes, and a
-- state that was saved for a check is passing, warning, critical or timeout.
pub settled_answer :
    {S : Type 0} (cpus : ℤ) (settings : List (Setting S)) (store : S) (h₀ : Container S)
    (es : List Event)
    → new cpus (options_of settings) store ≡ inl h₀
    → saved_tracker (operations h₀.persister) store ≡ none
    → All IsUsual es
    → let h = serve es h₀.health in
      (s : Running)
      → Reach (registered_in h) (system_of h) s
      → ((name : String) → registered_in h name ≡ true → s.phase name ≡ idle)
      → (a : Status × GoMap String) × (status (container_of h s) ≡ some a)
        × ((http_code a.0 ≡ 200) ↔ (active_events s.world.tracker ≡ []))
settled_answer cpus settings store h₀ es made nothing usual s reached settled =
    let h = serve es h₀.health in
    let serving = service-IsServing cpus settings store h₀ es made nothing usual in
    let o = Reach-IsOrderly (registered_in h) (system_of-IsOrderly h serving) reached in
    answer-ok_iff (container_of h s) (container_of-IsServing h s serving o settled)
