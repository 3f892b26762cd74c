-- ===== src/Health/Service/Unhealthy.antt =====
-- health.go, check.go and status.go: a check none of whose runs is passing, among the other events of a
-- container.
use health_go.Base.{
  String, Bool, true, false, Option, is_some, none, some, List, [], ◌∷◌, ◌≡◌, refl, ap, arith, ◌==◌,
  Bool-cases, Option-cases, inl, inr, eq_iff, ◌∙◌, sym,
}
use health_go.Base.Lists.{All}
use health_go.Base.GoMap.{get, get-put, put}
use health_go.Types.{Status, passing, eq_status, Error, CheckState}
use health_go.StatusUpdater.{StatusUpdater, World, Env, update}
use health_go.Check.{
  CheckConfig, CheckRuntime, Loops, Outcome, response, expired, check, start, pause, report_outcome,
  response_status,
}
use health_go.Health.{Health, register}
use health_go.Health.Service.{
  Event, registered, ran, paused, started, received, disabled, enabled_again, serve, serve_one,
  run_config, set_loop, with_config, pause_config, start_config,
}
use health_go.Health.Service.Serving.{IsServing, IsUsual}
use health_go.Health.Service.Runs.{serve_one-IsServing}

-- a run that ends in an error, or in no time
abbrev pub is_failure : Outcome → Bool
is_failure (response res) = is_some res.error
is_failure expired = true

-- a run of the check is no success; other events are free
abbrev pub IsHopeless : String → Event → Type 0
IsHopeless name (ran env other outcome) = (other == name) ≡ true → is_failure outcome ≡ true
IsHopeless name _ = Unit

-- the check is registered, and it is not passing
pub record IsUnhealthy (name : String) (h : Health) : Type 0 where
  pub config : CheckConfig
  pub updater : StatusUpdater
  pub found : get name h.checks ≡ some config
  pub status : config.status ≡ some updater
  pub unhealthy : eq_status updater.check.status passing ≡ false

update-unhealthy :
    (env : Env) (status : Status) (err : Error) (quiet : Bool) (s : StatusUpdater) (w : World)
    → eq_status status passing ≡ false
    → eq_status s.check.status passing ≡ false
    → eq_status (update env status err quiet s w).0.check.status passing ≡ false
unfolding update
update-unhealthy env passing err quiet s w failing unhealthy = cc
update-unhealthy env _ err quiet s w failing unhealthy = ground arith

check-unhealthy :
    (env : Env) (has_check skip_on_err : Bool) (outcome : Outcome) (s : StatusUpdater) (w : World)
    → is_failure outcome ≡ true
    → eq_status s.check.status passing ≡ false
    → eq_status (check env has_check skip_on_err outcome s w).0.check.status passing ≡ false
unfolding check report_outcome response_status
check-unhealthy env false skip_on_err outcome s w failure unhealthy = unhealthy
check-unhealthy env true skip_on_err expired s w failure unhealthy =
    update-unhealthy env _ _ _ s w refl unhealthy
check-unhealthy env true skip_on_err (response res) s w failure unhealthy =
    update-unhealthy env _ res.error res.no_notification s w (ground arith) unhealthy

module _ (name : String) where
  -- One check is put in its place, which may be the one that is not passing.
  put-IsUnhealthy :
      (other : String) (c : CheckConfig) {h h' : Health}
      → h'.checks ≡ put other c h.checks
      → ((other == name) ≡ true
          → (u : StatusUpdater) × (c.status ≡ some u) × (eq_status u.check.status passing ≡ false))
      → IsUnhealthy name h
      → IsUnhealthy name h'
  put-IsUnhealthy other c {h} {h'} checks same bad = elim (Bool-cases (other == name)) [
    | inl own ↦
        let (u, status, unhealthy) = same own in
        record {
          config = c;
          updater = u;
          found = ap (get name) checks ∙ rw (get-put, own) refl;
          status = status;
          unhealthy = unhealthy;
        }
    | inr another ↦ record {
      config = bad.config;
      updater = bad.updater;
      found = ap (get name) checks ∙ rw (get-put, another) bad.found;
      status = bad.status;
      unhealthy = bad.unhealthy;
    }
  ]

  -- the updater that the check has under its own name
  own_updater :
      (other : String) (c : CheckConfig) {h : Health}
      → get other h.checks ≡ some c
      → (other == name) ≡ true
      → IsUnhealthy name h
      → (u : StatusUpdater) × (c.status ≡ some u) × (eq_status u.check.status passing ≡ false)
  own_updater other c {h} found own bad =
      let same : other ≡ name = (eq_iff other name).0 own in
      let known : c ≡ bad.config = ground (arith, found, bad.found, same) in
      (bad.updater, rw known bad.status, bad.unhealthy)

  run_config-IsUnhealthy :
      (env : Env) (other : String) (outcome : Outcome) (c : CheckConfig) {h : Health}
      → IsHopeless name (ran env other outcome)
      → IsServing h
      → get other h.checks ≡ some c
      → IsUnhealthy name h
      → IsUnhealthy name (run_config env outcome c h)
  unfolding run_config
  run_config-IsUnhealthy env other outcome c {h} hopeless serving found bad =
      let r = serving.entry other c found in
      let (u', w) = check env c.has_check c.skip_on_err outcome r.updater h.world in
      rw r.status (
        put-IsUnhealthy c.name (record c { status = some u' }) refl
          (λ own.
            let mine : (other == name) ≡ true = rw (sym r.own_name) own in
            let (u, status, unhealthy) = own_updater other c found mine bad in
            let same : r.updater ≡ u = ground (arith, r.status, status) in
            (
              u',
              refl,
              check-unhealthy env c.has_check c.skip_on_err outcome r.updater h.world
                  (hopeless mine) (rw same unhealthy),
            ))
          bad)

  set_loop-IsUnhealthy :
      (other : String) (c : CheckConfig) (loop : Option CheckRuntime × Loops) {h : Health}
      → IsServing h
      → get other h.checks ≡ some c
      → IsUnhealthy name h
      → IsUnhealthy name (set_loop c loop h)
  unfolding set_loop
  set_loop-IsUnhealthy other c (runtime, loops) {h} serving found bad =
      let r = serving.entry other c found in
      put-IsUnhealthy c.name (record c { runtime = runtime }) refl
        (λ own. own_updater other c found (rw (sym r.own_name) own) bad) bad

  with_config-IsUnhealthy :
      (f : CheckConfig → Health → Health) (other : String) {h : Health}
      → IsUnhealthy name h
      → ((c : CheckConfig) → get other h.checks ≡ some c → IsUnhealthy name (f c h))
      → IsUnhealthy name (with_config f other h)
  unfolding with_config
  with_config-IsUnhealthy f other {h} bad each = elim (Option-cases (get other h.checks)) [
    | inl missing ↦ rw (with_config, missing) bad
    | inr found ↦ let (c, e) = found in rw (with_config, e) (each c e)
  ]

  -- A registration leaves the other checks alone, and refuses the name of the check.
  pub register-IsUnhealthy :
      (env : Env) (saved : Option CheckState) (c : CheckConfig) {h : Health}
      → IsUnhealthy name h
      → IsUnhealthy name (register env (λ n. saved) c h).0
  unfolding register
  register-IsUnhealthy env saved c {h} bad = elim (Bool-cases (c.name == "")) [
    | inl unnamed ↦ rw unnamed bad
    | inr named ↦ elim (Option-cases (get c.name h.checks)) [
      | inr taken ↦ let (d, e) = taken in rw (named, e) bad
      | inl free ↦
          rw (named, free)
            (put-IsUnhealthy c.name _ refl
              (λ own.
                let same : c.name ≡ name = (eq_iff c.name name).0 own in
                let held : get name h.checks ≡ none = rw (sym same) free in
                ground (arith, held, bad.found))
              bad)
    ]
  ]

  same_checks : {h h' : Health} → h'.checks ≡ h.checks → IsUnhealthy name h → IsUnhealthy name h'
  same_checks checks bad = record {
    config = bad.config;
    updater = bad.updater;
    found = ap (get name) checks ∙ bad.found;
    status = bad.status;
    unhealthy = bad.unhealthy;
  }

  serve_one-IsUnhealthy :
      (e : Event) {h : Health}
      → IsHopeless name e
      → IsServing h
      → IsUnhealthy name h
      → IsUnhealthy name (serve_one e h)
  unfolding serve_one
  serve_one-IsUnhealthy (registered env saved c) hopeless serving bad =
      register-IsUnhealthy env saved c bad
  serve_one-IsUnhealthy (ran env other outcome) hopeless serving bad =
      with_config-IsUnhealthy (run_config env outcome) other bad
        (λ c found. run_config-IsUnhealthy env other outcome c hopeless serving found bad)
  serve_one-IsUnhealthy (paused other) {h} hopeless serving bad =
      with_config-IsUnhealthy pause_config other bad
        (λ c found. set_loop-IsUnhealthy other c (pause c.runtime h.loops) serving found bad)
  serve_one-IsUnhealthy (started other) {h} hopeless serving bad =
      with_config-IsUnhealthy start_config other bad
        (λ c found. set_loop-IsUnhealthy other c (start c.runtime h.loops) serving found bad)
  serve_one-IsUnhealthy (received n) hopeless serving bad = same_checks refl bad
  serve_one-IsUnhealthy (disabled now suppress_time) hopeless serving bad = same_checks refl bad
  serve_one-IsUnhealthy enabled_again hopeless serving bad = same_checks refl bad

  pub serve-IsUnhealthy :
      (es : List Event) {h : Health}
      → All (IsHopeless name) es
      → All IsUsual es
      → IsServing h
      → IsUnhealthy name h
      → IsUnhealthy name (serve es h)
  unfolding serve
  serve-IsUnhealthy [] hopeless usual serving bad = bad
  serve-IsUnhealthy (e ∷ es) hopeless usual serving bad =
      serve-IsUnhealthy es hopeless.1 usual.1 (serve_one-IsServing e usual.0 serving)
        (serve_one-IsUnhealthy e hopeless.0 serving bad)
