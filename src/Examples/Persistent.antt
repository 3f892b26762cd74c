-- ===== src/Examples/Persistent.antt =====
-- _examples/server_with_persistence.go and _examples/custom_persister.go: two servers that keep their
-- state, up to their HTTP servers.
pub mod Restart
pub mod Killed
use health_go.Events.{EventTracker}
use health_go.Base.{String, Bool, true, false, some, List, [], ◌∷◌, ◌⊎◌, inl, inr, ◌||◌, ltb, ◌%◌}
use health_go.Base.Int.{ℤ, pos, ltb_ℤ, is_zero}
use health_go.Types.{Time, Action, EventTrackerState, CheckState}
use health_go.StatusUpdater.{Env}
use health_go.Health.Container
use health_go.Health.Container.{
  Container, OptionError, custom, with_system_info, with_state_persister, save_state,
}
use health_go.Sqlite.{Database, Persister}
use health_go.FilePersister.{Directory, Json, new_file_persister, file_persister}
use health_go.Server.{start}
use health_go.Examples.{
  Example, maintenance_example, succeeds, fails_when, blank, rem, register_all,
}

abbrev pub mail_action : Action
mail_action = record {
  command = "echo 'Database down!' | mail -s 'Alert' ops@example.com";
  unlock_after_duration = pos 3600000000000;
  unlock_only_after_healthy = false;
  timeout = pos 0;
  send_command_output = false;
  notifiers = [];
  last_run = 0;
  can_run = false;
}

abbrev pub database_example : Example
database_example = (
  record (blank "database") {
    interval = pos 10000000000;
    timeout = pos 5000000000;
    skip_on_err = true;
    failure_action = some mail_action;
  },
  succeeds,
)

abbrev pub external_api_example : Example
external_api_example = (
  record (blank "external-api") {
    interval = pos 5000000000;
    timeout = pos 3000000000;
    successes_before_passing = pos 3;
    failures_before_critical = pos 2;
  },
  fails_when (λ unix. ltb_ℤ (rem unix 10) (pos 3)) "external API timeout",
)

abbrev pub persistent_checks : List Example
persistent_checks = maintenance_example ∷ database_example ∷ external_api_example ∷ []

abbrev pub backend_example : Example
backend_example = (
  record (blank "backend-service") { interval = pos 10000000000; timeout = pos 5000000000 },
  fails_when (λ unix. is_zero (rem unix 5)) "backend unavailable",
)

abbrev pub custom_checks : List Example
custom_checks = maintenance_example ∷ backend_example ∷ []

-- `main` of server_with_persistence.go, with the persister that was opened
unfoldable pub persistent_main :
    {D : Type 0}
    → Database D
    → ℤ
    → (String → Env)
    → Persister D
    → Container (Persister D) ⊎ OptionError
unfolding register_all
persistent_main q cpus envs p = elim (start q cpus p) [
  | inr e ↦ inr e
  | inl h ↦ inl (register_all envs persistent_checks p h)
]

module _ {F C : Type 0} (dir : Directory F C) (tracker_json : Json C EventTrackerState)
    (check_json : Json C CheckState) where
  -- `main` of custom_persister.go: the directory and the container, or an error
  unfoldable pub custom_main : ℤ → (String → Env) → F → (F × Container F) ⊎ (String ⊎ OptionError)
  unfolding register_all
  custom_main cpus envs f = elim (new_file_persister dir f) [
    | inr e ↦ inr (inl e)
    | inl made ↦
        elim (Container.new cpus
          (with_system_info
            ∷ with_state_persister (custom (some (file_persister dir tracker_json check_json)))
            ∷ [])
          made) [ inr e ↦ inr (inr e) | inl h ↦ inl (made, register_all envs custom_checks made h) ]
  ]

-- its ticker saves the state every thirty seconds; `ticks` are the clocks of the saves so far, each
-- with the tracker and the container as it reads them
unfoldable pub save_ticks :
    {S : Type 0} → List (Time × (String → Time) × EventTracker × Container S) → S → S
unfolding save_state
save_ticks [] s = s
save_ticks ((now, times, tracker, h) ∷ ticks) s =
    save_ticks ticks (save_state now times tracker h s)
