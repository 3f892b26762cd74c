-- ===== src/Checkers/Rabbitmq/Phases.antt =====
-- checks/rabbitmq/check.go: what the check shows by its answer and what it leaves behind.
use health_go.Base.{
  ap, Bool, true, false, not, ◌&&◌, Option, some, List, [], ◌∷◌, ◌≡◌, refl, arith, is_some, ◌⊎◌,
  inl, inr, Option-cases,
}
use health_go.Base.Int.{ℤ}
use health_go.Checkers.{Reply, value, answered}
use health_go.Checkers.Resources.{
  Role, neutral, opens, closes, stack, Releases, call-Releases, opened-Releases,
}
use health_go.Checkers.Failures.{all_fine, Honest, call-Honest, deferred-Honest}
use health_go.Checkers.Completeness.{
  calls, Completes, succeed-Completes, fail-Completes, call-Completes, deferred-Completes,
}
use health_go.Checkers.Rabbitmq.{
  Config, Call, dial, channel, exchange_declare, queue_declare, queue_bind, consume, publish, wait,
  close_channel, close_connection, Seen, timed_out, disconnected, Log, after_wait, await,
  exchange_message, check_body, check,
}

-- the connection is 0, the channel 1
abbrev pub role : Call → Role
role (dial dsn timeout) = opens 0
role channel = opens 1
role close_channel = closes 1
role close_connection = closes 0
role _ = neutral

-- a `select` that sees no end of a timeout or of the context, and a call with no error
abbrev pub fine : Call → Reply (Option Seen) → Bool
fine (wait timeout) (value (some timed_out)) = false
fine (wait timeout) (value (some (disconnected e))) = false
fine c r = answered r

-- all phases in order, the latest first
abbrev pub phases : Config → List Call
phases c =
    close_connection
    ∷ close_channel
    ∷ wait c.consume_timeout
    ∷ publish c.exchange c.routing_key
    ∷ consume c.queue
    ∷ queue_bind c.queue c.routing_key c.exchange
    ∷ queue_declare c.queue
    ∷ exchange_declare c.exchange
    ∷ channel
    ∷ dial c.dsn c.dial_timeout
    ∷ []

module _ (answer : Log → Call → Reply (Option Seen)) (seen : Log → Seen) (c : Config) where
  after_wait-stack : (s : Seen) (t : Log) → stack role (after_wait s t).1 ≡ stack role t
  unfolding after_wait
  after_wait-stack timed_out t = refl
  after_wait-stack _ t = refl

  await-Releases : Releases role (await answer seen c)
  unfolding await stack
  await-Releases = record { kept = λ t. after_wait-stack (seen t) _ }

  body-Releases : Releases role (check_body answer seen c)
  unfolding check_body exchange_message
  body-Releases = opened-Releases role answer 0 _ _ _ _ refl refl (λ _.
      opened-Releases role answer 1 _ _ _ _ refl refl (λ _. call-Releases role answer _ _ refl (λ _.
        call-Releases role answer _ _ refl (λ _. call-Releases role answer _ _ refl (λ _.
          call-Releases role answer _ _ refl
            (λ _. call-Releases role answer _ _ refl (λ _. await-Releases)))))))

  after_wait-says :
      (s : Seen) (timeout : ℤ) (t : Log)
      → let (error, t') = after_wait s ((wait timeout, value (some s)) ∷ t) in
        all_fine fine t' ≡ (not (is_some error) && all_fine fine t)
  unfolding after_wait
  after_wait-says timed_out timeout t = refl
  after_wait-says _ timeout t = refl

  await-Honest : Honest fine (await answer seen c)
  unfolding await
  await-Honest = record { says = λ t. after_wait-says (seen t) c.consume_timeout t }

  body-Honest : Honest fine (check_body answer seen c)
  unfolding check_body exchange_message
  body-Honest =
      call-Honest fine answer _ _ (λ r. refl)
        (λ _.
          deferred-Honest fine answer _ _ (λ r. refl)
            (call-Honest fine answer _ _ (λ r. refl)
              (λ _.
                deferred-Honest fine answer _ _ (λ r. refl)
                  (call-Honest fine answer _ _ (λ r. refl)
                    (λ _.
                      call-Honest fine answer _ _ (λ r. refl)
                        (λ _.
                          call-Honest fine answer _ _ (λ r. refl)
                            (λ _.
                              call-Honest fine answer _ _ (λ r. refl)
                                (λ _.
                                  call-Honest fine answer _ _ (λ r. refl)
                                    (λ _. await-Honest)))))))))

  after_wait-Completes : {before : List Call} (s : Seen) → Completes (after_wait s) before before
  unfolding after_wait
  after_wait-Completes timed_out = fail-Completes _
  after_wait-Completes (disconnected e) = fail-Completes _
  after_wait-Completes _ = succeed-Completes

  await-Completes :
      {before : List Call}
      → Completes (await answer seen c) before (wait c.consume_timeout ∷ before)
  unfolding await
  await-Completes = record {
    made = λ t same ok.
        (after_wait-Completes (seen t)).made _ (ap (λ cs. wait c.consume_timeout ∷ cs) same) ok;
  }

  body-Completes : Completes (check_body answer seen c) [] (phases c)
  unfolding check_body exchange_message
  body-Completes = call-Completes answer _ _ (λ _. deferred-Completes answer _ _ (
      call-Completes answer _ _ (λ _. deferred-Completes answer _ _ (
        call-Completes answer _ _ (λ _. call-Completes answer _ _ (λ _.
          call-Completes answer _ _ (λ _.
            call-Completes answer _ _ (λ _. call-Completes answer _ _ (λ _. await-Completes)))))))))

  -- However the broker answers, the check leaves nothing open: a connection and a channel that were opened are
  -- closed, the channel first.
  pub rabbitmq-releases : stack role (check answer seen c).1 ≡ some []
  unfolding check stack
  rabbitmq-releases = body-Releases.kept []

  -- The check reports no error just when no call failed, the closing calls included, and the
  -- `select` saw neither the end of the consume timeout nor that of the context. Without an error
  -- it has dialled, declared and bound, published and waited for the message, and closed both, in
  -- this order.
  pub rabbitmq-healthy :
      (not (is_some (check answer seen c).0.error) ≡ all_fine fine (check answer seen c).1)
      × ((is_some (check answer seen c).0.error ≡ true)
          ⊎ (calls (check answer seen c).1 ≡ phases c))
  unfolding check
  rabbitmq-healthy = (
    ground (arith, body-Honest.says []),
    elim (Option-cases (check answer seen c).0.error) [
      | inl ok ↦ inr (body-Completes.made [] refl ok)
      | inr failed ↦ inl (ap is_some failed.1)
    ],
  )
