-- ===== src/Checkers/Cassandra/Kept.antt =====
-- checks/cassandra/check.go: what the check leaves behind and what it shows by its answer.
use health_go.Base.{Bool, true, false, not, some, [], ◌≡◌, refl, arith, is_some}
use health_go.Checkers.{demand, fail, Reply, answered}
use health_go.Checkers.Resources.{
  Role, neutral, opens, closes, stack, Releases, succeed-Releases, demand-Releases, call-Releases,
  held-Releases,
}
use health_go.Checkers.Failures.{all_fine, Honest, succeed-Honest, call-Honest, finally-Honest}
use health_go.Checkers.Cassandra.{
  Config, Call, create_session, exec, close_session, Log, incomplete, check_body, check,
}

abbrev pub role : Call → Role
role (create_session hosts keyspace) = opens 0
role (exec text) = neutral
role close_session = closes 0

abbrev pub fine : Call → Reply Unit → Bool
fine close_session r = true
fine c r = answered r

module _ (answer : Log → Call → Reply Unit) (c : Config) where
  body-Releases : Releases role (check_body answer c)
  unfolding check_body
  body-Releases = demand-Releases role _ _ (
      held-Releases role answer 0 _ _ _ refl refl
        (λ _. call-Releases role answer _ _ refl (λ _. succeed-Releases role)))

  body-Honest : incomplete c ≡ false → Honest fine (check_body answer c)
  unfolding check_body demand
  body-Honest complete = rw complete (
      call-Honest fine answer _ _ (λ r. refl)
        (λ _.
          finally-Honest fine answer _ (λ r. refl)
            (call-Honest fine answer _ _ (λ r. refl) (λ _. succeed-Honest fine))))

  -- The check of cassandra closes the session that it made. Without hosts or a keyspace it reports
  -- an error and calls nothing; else it reports no error just when no call failed.
  pub cassandra_check-cases :
      (stack role (check answer c).1 ≡ some [])
      × (incomplete c ≡ true
          → (is_some (check answer c).0.error ≡ true) × ((check answer c).1 ≡ []))
      × (incomplete c ≡ false
          → not (is_some (check answer c).0.error) ≡ all_fine fine (check answer c).1)
  unfolding check check_body demand fail stack
  cassandra_check-cases = (
    body-Releases.kept [],
    λ missing. (rw missing refl, rw missing refl),
    λ complete. ground (arith, (body-Honest complete).says []),
  )
