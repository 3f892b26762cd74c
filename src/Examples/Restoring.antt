-- ===== src/Examples/Restoring.antt =====
-- _examples: the registrations at the start of a program whose persister holds saved states.
use health_go.Base.{
  String, true, false, some, List, [], ◌∷◌, ◌≡◌, ◌≢◌, refl, ◌∙◌, arith, ◌==◌, eq_iff, Bool-cases,
  Option-cases, inl, inr,
}
use mathlib.Core.List.{Memᴰ}
use mathlib.Core.List.Memᴰ
use health_go.Base.Lists.{All}
use health_go.Base.GoMap.{get, get-put}
use health_go.Types.{Time}
use health_go.Actions
use health_go.Actions.{new_action_runner}
use health_go.Actions.Persistence.{runner_in, CarriesOver}
use health_go.StatusUpdater.{StatusUpdater, Env, get_state}
use health_go.Check.{CheckConfig}
use health_go.Persister.{StatePersister}
use health_go.Health.{register}
use health_go.Health.Container.{Container, custom, register_check, load_saved, operations}
use health_go.Health.Restored.{register_check-TakesOver}
use health_go.Examples.{Example, register_all}
use health_go.Examples.Registering.{well_named, is_unused, IsFree, register-IsFree}

-- The check is registered with the status, the error and the counters of the updater, and does not
-- treat its next result as the first. Its actions are as configured, with the locks and the times of
-- the last runs of those of the updater, the times put through `keep`.
abbrev pub IsRestored :
    {S : Type 0} → (Time → Time) → CheckConfig → Container S → StatusUpdater → Type 0
IsRestored keep c h u =
    (d : CheckConfig) × (u' : StatusUpdater) × (get c.name h.health.checks ≡ some d)
    × (d.status ≡ some u')
    × (u'.check ≡ u.check)
    × (u'.successes ≡ u.successes)
    × (u'.failures ≡ u.failures)
    × (u'.initialized ≡ true)
    × CarriesOver keep u.actions
        (new_action_runner c.name c.success_action c.warning_action c.failure_action
          c.timeout_action)
        u'.actions

-- the persister holds a state that was saved of the updater, whose error is no empty message
pub record IsSaved {S : Type 0} (p : StatePersister S) (keep : Time → Time) (s : S) (name : String)
    (u : StatusUpdater) : Type 0 where
  pub now : Time
  pub updated : Time
  pub state :
      (p.load_check_state name s).0
      ≡ some (record (get_state now u) {
        action_runner_state = some (runner_in keep (Actions.get_state u.actions));
        updated_at = updated;
      })
  pub error : u.check.error ≢ some ""

module _ {S : Type 0} (envs : String → Env) (s : S) where
  -- A registration leaves the checks of other names alone.
  register_check-others :
      (c : CheckConfig) (h : Container S) (j : String)
      → (j == c.name) ≡ false
      → get j (register_check (envs c.name) c s h).0.health.checks ≡ get j h.health.checks
  unfolding register_check register
  register_check-others c h j other = elim (Bool-cases (c.name == "")) [
    | inl unnamed ↦ rw unnamed refl
    | inr named ↦ elim (Option-cases (get c.name h.health.checks)) [
      | inr taken ↦ rw (named, taken.1) refl
      | inl free ↦
          let apart : (c.name == j) ≡ false =
            ground (arith, eq_iff j c.name, eq_iff c.name j, other) in
          rw (named, free) (rw (get-put, apart) refl)
    ]
  ]

  register_all-others :
      (es : List Example) (h : Container S) (j : String)
      → is_unused j es ≡ true
      → get j (register_all envs es s h).health.checks ≡ get j h.health.checks
  unfolding register_all is_unused
  register_all-others [] h j unused = refl
  register_all-others ((c, f) ∷ es) h j unused =
      register_all-others es (register_check (envs c.name) c s h).0 j (ground arith)
      ∙ register_check-others c h j (ground arith)

  module _ (p : StatePersister S) (keep : Time → Time) where
    -- what the program has of a check whose state was saved
    abbrev pub Restores : Container S → Example → Type 0
    Restores h e = (u : StatusUpdater) → IsSaved p keep s e.0.name u → IsRestored keep e.0 h u

    pub register_check-custom :
        (c : CheckConfig) (h : Container S)
        → h.persister ≡ custom (some p)
        → (register_check (envs c.name) c s h).0.persister ≡ custom (some p)
    unfolding register_check
    register_check-custom c h installed = installed

    pub register_all-Restores :
        (es : List Example) (h : Container S)
        → well_named es ≡ true
        → h.persister ≡ custom (some p)
        → IsFree h.health es
        → All (Restores (register_all envs es s h)) es
    unfolding register_all well_named register_check
    register_all-Restores [] h named installed free = tt
    register_all-Restores ((c, f) ∷ es) h named installed free =
        let has_name : (c.name == "") ≡ false = ground arith in
        let unused : is_unused c.name es ≡ true = ground arith in
        let rest : well_named es ≡ true = ground arith in
        let h₁ = (register_check (envs c.name) c s h).0 in
        let free₁ : IsFree h₁.health es =
          register-IsFree (envs c.name) (load_saved (operations h.persister) s) c h.health has_name
            free.0 es unused free.1 in
        (
          λ u saved.
              let (accepted, d, u', found, running, shown, good, bad, begun, actions) =
                register_check-TakesOver p (envs c.name) c s h u saved.now saved.updated keep
                  installed saved.state saved.error has_name free.0 in
              (
                d,
                u',
                register_all-others es h₁ c.name unused ∙ found,
                running,
                shown,
                good,
                bad,
                begun,
                actions,
              ),
          register_all-Restores es h₁ rest (register_check-custom c h installed) free₁,
        )

-- what holds of all holds of a member
pub All-member :
    (P : Example → Type 0) {e : Example} (es : List Example) → All P es → Memᴰ e es → P e
All-member P [] all member = elim (Memᴰ.not-nil member) [ ]
All-member P (x ∷ es) all (Memᴰ.head same) = rw same all.0
All-member P (x ∷ es) all (Memᴰ.tail rest) = All-member P es all.1 rest
