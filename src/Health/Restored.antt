-- ===== src/Health/Restored.antt =====
-- health.go, Register, with persister.go: a check that is registered with a saved state.
use health_go.Base.{true, false, none, some, ◌≡◌, ◌≢◌, refl, ◌==◌}
use health_go.Base.GoMap.{get, get-put_same}
use health_go.Types.{Time}
use health_go.Actions
use health_go.Actions.{new_action_runner}
use health_go.Actions.Persistence.{runner_in, CarriesOver, restored-CarriesOver}
use health_go.StatusUpdater.{
  StatusUpdater, Env, restore_state, restore_fields, get_state, new_status_updater_internal,
}
use health_go.StatusUpdater.Persistence.{saved-error}
use health_go.Check.{CheckConfig}
use health_go.Health.{register, create_updater, configure}
use health_go.Persister.{StatePersister}
use health_go.Health.Container.{Container, custom, register_check}

-- The registration succeeds, and the check has the status, the error and the counters of the
-- updater. Its actions are as configured, with the locks and the times of the last runs of those of
-- the updater, the times put through `keep`.
abbrev pub TakesOver :
    {S : Type 0} → (Time → Time) → Env → CheckConfig → S → Container S → StatusUpdater → Type 0
TakesOver keep env c s h u =
    let configured =
      new_action_runner c.name c.success_action c.warning_action c.failure_action
        c.timeout_action in
    let (h', e) = register_check env c s h in
    (e ≡ none)
    × (d : CheckConfig) × (u' : StatusUpdater) × (get c.name h'.health.checks ≡ some d)
    × (d.status ≡ some u')
    × (u'.check ≡ u.check)
    × (u'.successes ≡ u.successes)
    × (u'.failures ≡ u.failures)
    × (u'.initialized ≡ true)
    × CarriesOver keep u.actions configured u'.actions

module _ {S : Type 0} (p : StatePersister S) where
  -- a check is registered with a state of an updater that was saved under its name by a persister
  -- that puts times through `keep`
  pub register_check-TakesOver :
      (env : Env) (c : CheckConfig) (s : S) (h : Container S) (u : StatusUpdater)
      (now updated : Time) (keep : Time → Time)
      → h.persister ≡ custom (some p)
      → (p.load_check_state c.name s).0
        ≡ some (record (get_state now u) {
          action_runner_state = some (runner_in keep (Actions.get_state u.actions));
          updated_at = updated;
        })
      → u.check.error ≢ some ""
      → (c.name == "") ≡ false
      → get c.name h.health.checks ≡ none
      → TakesOver keep env c s h u
  unfolding register_check register create_updater configure restore_state restore_fields get_state
      new_status_updater_internal
  register_check-TakesOver env c s h u now updated keep installed loaded named has_name free =
      rw (installed, loaded)
        (rw (has_name, free)
          (
            refl,
            _,
            _,
            get-put_same c.name _ h.health.checks,
            refl,
            (λ i. record { status = u.check.status; error = saved-error u.check.error named i }),
            refl,
            refl,
            refl,
            restored-CarriesOver keep u.actions _,
          ))
