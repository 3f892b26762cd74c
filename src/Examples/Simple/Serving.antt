-- ===== src/Examples/Simple/Serving.antt =====
-- _examples/server.go: what the server answers.
use health_go.Base.{String, true, some, List, [], ◌∷◌, ◌≡◌, refl, ◌⊎◌, inl}
use health_go.Base.Int.{ℤ}
use health_go.Base.Lists.{All}
use health_go.Base.GoMap.{get}
use health_go.Types.{Time}
use health_go.StatusUpdater.{Env}
use health_go.Events
use health_go.Events.{new_event_tracker, set_maintenance_check_name}
use health_go.Events.Uuid.{IsUuid}
use health_go.Events.Invariant.{new-IsValid}
use health_go.Health.Container
use health_go.Health.Container.{
  Container, with_system_info, apply_options, load_tracker, empty_container, noop,
}
use health_go.Health.Service.Serving.{IsServing}
use health_go.Health.Endpoint.{Check, Runtime}
use health_go.Health.Endpoint.Unavailable.{IsUnavailable, unhealthy-IsUnavailable}
use health_go.Examples.{Turn, take_turns, function_of, register_or_exit, fails}
use health_go.Examples.Registering.{IsStarted, register_or_exit-IsStarted, well_named, is_unused}
use health_go.Examples.Turns.{IsFed, turns-IsUnhealthy}
use health_go.Examples.Simple.{main, server_checks}

abbrev with_info : {S : Type 0} → ℤ → Container S
with_info {S = S} cpus = record (empty_container cpus) {
  health = record (empty_container {S = S} cpus).health { system_info_enabled = true };
}

new_server :
    {S : Type 0} (cpus : ℤ) (s : S)
    → Container.new cpus (with_system_info ∷ []) s ≡ inl (with_info cpus)
unfolding Container.new apply_options load_tracker Events.restore_state
new_server cpus s = refl

with_info-IsServing : (S : Type 0) (cpus : ℤ) → IsServing (with_info {S = S} cpus).health
unfolding set_maintenance_check_name get
with_info-IsServing S cpus = record {
  distinct = tt;
  valid = new-IsValid "";
  entry = λ name c found. cc;
  absent = λ name missing. refl;
}

checks-well_named : well_named server_checks ≡ true
unfolding well_named is_unused
checks-well_named = refl

failing_function :
    function_of "some-custom-check-fail" server_checks
    ≡ some (fails "failed during custom health check")
unfolding function_of
failing_function = refl

module _ {S : Type 0} (cpus : ℤ) (envs : String → Env) (s : S)
    (fed : (name : String) → IsUuid (envs name).uuid) where
  main_after :
      (h : Container S)
      → register_or_exit envs server_checks s (with_info cpus) ≡ inl h
      → main cpus envs s ≡ inl h
  unfolding main
  main_after h accepted = rw (main, new_server cpus s) (rw accepted refl)

  main-IsStarted : (h : Container S) × IsStarted envs s server_checks (with_info cpus) h
  unfolding get
  main-IsStarted =
      register_or_exit-IsStarted envs s fed server_checks (with_info cpus) checks-well_named refl
        (with_info-IsServing S cpus) (refl, (refl, (refl, (refl, (refl, (refl, (refl, tt)))))))

  -- The example server comes up: New has no error, and all seven checks are accepted, so that main does
  -- not exit. From then on it never answers 200, since one of its checks always fails: after any turns of
  -- its checks, whatever the files, the clients and the clock give them and however late they are, and
  -- after any pauses and starts, a request is answered with another code. UUIDs have sixteen bytes.
  pub main-never_ok :
      {B : Type 0} (marshal : Check → B ⊎ String) (runtime : Runtime) (now : Time) (ts : List Turn)
      → All IsFed ts
      → (h : Container S) × (main cpus envs s ≡ inl h)
        × IsUnavailable marshal runtime now
            (record h { health = take_turns server_checks ts h.health })
  main-never_ok marshal runtime now ts turns =
      let (h, started) = main-IsStarted in
      let (serving, bad) =
        turns-IsUnhealthy "some-custom-check-fail" "failed during custom health check" server_checks
          failing_function ts turns started.serving started.pending.1.0 in
      (
        h,
        main_after h started.accepted,
        unhealthy-IsUnavailable marshal runtime now
            (record h { health = take_turns server_checks ts h.health }) "some-custom-check-fail"
            serving bad,
      )
