-- ===== src/Health/Service/Serving.antt =====
-- health.go, check.go, status.go, events.go: what holds of a container between two events.
use health_go.Base.{
  String, Option, none, some, true, false, ◌≡◌, refl, sym, ◌∙◌, ap, arith, ◌==◌, Bool-cases,
  Option-cases, inl, inr,
}
use health_go.Base.GoMap.{get, put, IsMap, put-IsMap, get-put, put_ind}
use health_go.Types.{CheckState}
use health_go.Events.{EventTracker}
use health_go.Events.Uuid.{IsUuid}
use health_go.Events.Invariant.{IsValid}
use health_go.StatusUpdater.{StatusUpdater, World, Env}
use health_go.StatusUpdater.Coherence.{
  Agrees, Effect, Effect-Agrees, Effect-others, Kept, check-Kept,
}
use health_go.Check.{start, CheckRuntime, Loops, CheckConfig, Outcome, check}
use health_go.Health.{Health, register, create_updater, configure}
use health_go.Health.Service.Created.{IsUsualState, create_updater-IsCreated}
use health_go.Health.Service.{Event, registered, ran, run_config, set_loop}

-- a configuration that is registered under a name, with an updater that agrees with the tracker
pub record IsRegistered (t : EventTracker) (name : String) (c : CheckConfig) : Type 0 where
  pub updater : StatusUpdater
  pub status : c.status ≡ some updater
  pub own_name : c.name ≡ name
  pub same_name : updater.actions.check_name ≡ name
  pub tracked : updater.tracked ≡ true
  pub agrees : Agrees name updater.check.status t

-- Every registered check agrees with the tracker, which is valid and holds events for no other name.
pub record IsServing (h : Health) : Type 0 where
  pub distinct : IsMap h.checks
  pub valid : IsValid h.world.tracker
  pub entry :
      (name : String) (c : CheckConfig)
      → get name h.checks ≡ some c
      → IsRegistered h.world.tracker name c
  pub absent :
      (name : String) → get name h.checks ≡ none → get name h.world.tracker.event_ids ≡ none

-- the UUIDs are as documented, and a state that was saved for a check is healthy or an incident
abbrev pub IsUsual : Event → Type 0
IsUsual (registered env saved c) = IsUuid env.uuid × IsUsualState saved
IsUsual (ran env name outcome) = IsUuid env.uuid
IsUsual _ = Unit

-- A check keeps its place when the events of its own name are the same.
move :
    {t t' : EventTracker} {name : String} {c : CheckConfig}
    → get name t'.event_ids ≡ get name t.event_ids
    → IsRegistered t name c
    → IsRegistered t' name c
move same r = record {
  updater = r.updater;
  status = r.status;
  own_name = r.own_name;
  same_name = r.same_name;
  tracked = r.tracked;
  agrees = rw same r.agrees;
}

-- One check is put in its place, and the events of the others stay.
put-IsServing :
    (name : String) (c : CheckConfig) (w : World) {h h' : Health}
    → h'.checks ≡ put name c h.checks
    → h'.world ≡ w
    → IsServing h
    → IsValid w.tracker
    → IsRegistered w.tracker name c
    → ((j : String)
        → (name == j) ≡ false
        → get j w.tracker.event_ids ≡ get j h.world.tracker.event_ids)
    → IsServing h'
put-IsServing name c w {h} {h'} checks world serving valid own others = record {
  distinct = rw checks (put-IsMap name c h.checks serving.distinct);
  valid = rw world valid;
  entry =
      rw (checks, world)
        (put_ind (IsRegistered w.tracker) name c h.checks own
          (λ j d other found. move (others j other) (serving.entry j d found)));
  absent = λ j missing.
      rw world
        (ground (arith, ap (get j) checks, get-put j name c h.checks, others j, serving.absent j));
}

-- The effect of a run is one under the name of the check.
Kept-Effect :
    {env : Env} {name : String} {s : StatusUpdater} {w : World} {p : StatusUpdater × World}
    → s.actions.check_name ≡ name
    → Kept env s w p
    → Effect env.uuid name s.check.status w.tracker p.0.check.status p.1.tracker
Kept-Effect same kept = rw (sym same) kept.effect

pub run_config-IsServing :
    (env : Env) (name : String) (outcome : Outcome) (c : CheckConfig) {h : Health}
    → IsUuid env.uuid
    → IsServing h
    → get name h.checks ≡ some c
    → IsServing (run_config env outcome c h)
unfolding run_config
run_config-IsServing env name outcome c {h} fed serving found =
    let r = serving.entry name c found in
    let u = r.updater in
    let kept =
      check-Kept env u h.world r.tracked fed serving.valid c.has_check c.skip_on_err outcome in
    let (u', w) = check env c.has_check c.skip_on_err outcome u h.world in
    let effect = Kept-Effect r.same_name kept in
    rw r.status (
      put-IsServing name (record c { status = some u' }) w
        (ap (λ k. put k (record c { status = some u' }) h.checks) r.own_name) refl serving
        kept.valid
        (record {
          updater = u';
          status = refl;
          own_name = r.own_name;
          same_name = kept.named ∙ r.same_name;
          tracked = kept.tracked;
          agrees = Effect-Agrees effect r.agrees;
        })
        (λ j other. Effect-others effect j other))

pub set_loop-IsServing :
    (name : String) (c : CheckConfig) {h : Health} (loop : Option CheckRuntime × Loops)
    → IsServing h
    → get name h.checks ≡ some c
    → IsServing (set_loop c loop h)
unfolding set_loop
set_loop-IsServing name c {h} (runtime, loops) serving found =
    let r = serving.entry name c found in
    put-IsServing name (record c { runtime = runtime }) h.world (rw r.own_name refl) refl serving
      serving.valid
      (record {
        updater = r.updater;
        status = r.status;
        own_name = r.own_name;
        same_name = r.same_name;
        tracked = r.tracked;
        agrees = r.agrees;
      })
      (λ j other. refl)

pub register-IsServing :
    (env : Env) (saved : Option CheckState) (c : CheckConfig) {h : Health}
    → IsUsual (registered env saved c)
    → IsServing h
    → IsServing (register env (λ name. saved) c h).0
unfolding register configure
register-IsServing env saved c {h} usual serving =
    let (u, w) = create_updater env c saved h.world in
    let (runtime, loops) = start c.runtime h.loops in
    elim (Bool-cases (c.name == "")) [
      | inl unnamed ↦ rw unnamed serving
      | inr named ↦ elim (Option-cases (get c.name h.checks)) [
        | inr taken ↦ let (d, e) = taken in rw (named, e) serving
        | inl fresh ↦
            let created =
              create_updater-IsCreated env saved c h.world usual.0 usual.1 serving.valid
                (serving.absent c.name fresh) in
            rw (named, fresh)
              (put-IsServing c.name (configure c u runtime) w refl refl serving created.valid
                (record {
                  updater = u;
                  status = refl;
                  own_name = refl;
                  same_name = created.same_name;
                  tracked = created.tracked;
                  agrees = created.agrees;
                })
                created.others)
      ]
    ]
