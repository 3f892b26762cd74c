-- ===== src/Examples/Registering.antt =====
-- _examples: the registrations at the start of a program, with no saved state.
use health_go.Base.{
  String, Bool, true, false, not, ◌&&◌, Option, none, List, [], ◌∷◌, ◌≡◌, refl, arith, ◌==◌, inl,
}
use health_go.Base.Lists.{All}
use health_go.Base.GoMap.{get, get-put}
use health_go.Types.{CheckState}
use health_go.StatusUpdater.{Env}
use health_go.Events.Uuid.{IsUuid}
use health_go.Check.{CheckConfig}
use health_go.Health.{Health, register}
use health_go.Health.Container.{Container, noop, register_check}
use health_go.Health.Service.Serving.{IsServing, register-IsServing}
use health_go.Health.Service.Unhealthy.{IsUnhealthy, register-IsUnhealthy}
use health_go.Health.Endpoint.Unavailable.{register-unhealthy}
use health_go.Examples.{Example, register_or_exit}

-- no check of the list has this name
unfoldable pub is_unused : String → List Example → Bool
is_unused name [] = true
is_unused name ((c, f) ∷ es) = not (name == c.name) && is_unused name es

-- every check has a name, and no two have the same
unfoldable pub well_named : List Example → Bool
unfolding is_unused
well_named [] = true
well_named ((c, f) ∷ es) = not (c.name == "") && (is_unused c.name es && well_named es)

-- no check of the list is registered
abbrev pub IsFree : Health → List Example → Type 0
IsFree h es = All (λ e. get e.0.name h.checks ≡ none) es

module _ {S : Type 0} (envs : String → Env) (s : S) where
  -- without a persister a registration is the event of it with no saved state
  register_check-accepted :
      (c : CheckConfig) (h : Container S)
      → h.persister ≡ noop
      → (c.name == "") ≡ false
      → get c.name h.health.checks ≡ none
      → ((register_check (envs c.name) c s h).1 ≡ none)
        × ((register_check (envs c.name) c s h).0.persister ≡ noop)
        × ((register_check (envs c.name) c s h).0.health
            ≡ (register (envs c.name) (λ name. none) c h.health).0)
  unfolding register_check register
  register_check-accepted c h quiet named free =
      (rw (quiet, named, free) refl, quiet, rw quiet refl)

module _ (env : Env) (load : String → Option CheckState) (c : CheckConfig) (h : Health)
    (named : (c.name == "") ≡ false) (free : get c.name h.checks ≡ none) where
  -- A registration takes no name but its own.
  register-free :
      (j : String)
      → (c.name == j) ≡ false
      → get j h.checks ≡ none
      → get j (register env load c h).0.checks ≡ none
  unfolding register
  register-free j other missing = rw (named, free) (rw (get-put, other) missing)

  pub register-IsFree :
      (es : List Example)
      → is_unused c.name es ≡ true
      → IsFree h es
      → IsFree (register env load c h).0 es
  unfolding is_unused
  register-IsFree [] unused rest = tt
  register-IsFree ((d, f) ∷ es) unused rest =
      (register-free d.name (ground arith) rest.0, register-IsFree es (ground arith) rest.1)

-- all checks of the list are accepted, and none is passing yet
pub record IsStarted {S : Type 0} (envs : String → Env) (s : S) (es : List Example)
    (h h' : Container S) : Type 0 where
  pub accepted : register_or_exit envs es s h ≡ inl h'
  pub serving : IsServing h'.health
  pub pending : All (λ e. IsUnhealthy e.0.name h'.health) es
  pub kept : (name : String) → IsUnhealthy name h.health → IsUnhealthy name h'.health

module _ {S : Type 0} (envs : String → Env) (s : S)
    (fed : (name : String) → IsUuid (envs name).uuid) where
  pub register_or_exit-IsStarted :
      (es : List Example) (h : Container S)
      → well_named es ≡ true
      → h.persister ≡ noop
      → IsServing h.health
      → IsFree h.health es
      → (h' : Container S) × IsStarted envs s es h h'
  unfolding register_or_exit well_named
  register_or_exit-IsStarted [] h named quiet serving free =
      (h, record { accepted = refl; serving = serving; pending = tt; kept = λ name bad. bad })
  register_or_exit-IsStarted ((c, f) ∷ es) h named quiet serving free =
      let has_name : (c.name == "") ≡ false = ground arith in
      let unused : is_unused c.name es ≡ true = ground arith in
      let rest : well_named es ≡ true = ground arith in
      let (h₁, e) = register_check (envs c.name) c s h in
      let (none_refused, quiet₁, same) = register_check-accepted envs s c h quiet has_name free.0 in
      let serving₁ : IsServing h₁.health =
        rw same (register-IsServing (envs c.name) none c (fed c.name, tt) serving) in
      let free₁ : IsFree h₁.health es = rw same (
        register-IsFree (envs c.name) (λ name. none) c h.health has_name free.0 es unused free.1) in
      let (h', started) = register_or_exit-IsStarted es h₁ rest quiet₁ serving₁ free₁ in
      (
        h',
        record {
          accepted = rw (register_or_exit, none_refused) started.accepted;
          serving = started.serving;
          pending = (
            started.kept c.name
                (rw same (register-unhealthy (envs c.name) c h.health has_name free.0)),
            started.pending,
          );
          kept = λ name bad.
              started.kept name (rw same (register-IsUnhealthy name (envs c.name) none c bad));
        },
      )
