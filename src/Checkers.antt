-- ===== src/Checkers.antt =====
-- checks/*/check.go: the ready-made checks. Each is a sequence of calls of a client library, which
-- stops at the first error, with the deferred calls after it. The library is a parameter: it may
-- answer a call in any way that depends on all calls before. `Trace` lists the calls with their
-- answers, the latest first.
pub mod Resources
pub mod Failures
pub mod Completeness
pub mod Verdicts
pub mod Rabbitmq
pub mod Sql
pub mod Mongo
pub mod Http
pub mod Grpc
pub mod Redis
pub mod Memcached
pub mod Nats
pub mod Influxdb
pub mod Cassandra
use health_go.Base.{
  ◌≡◌, refl, ◌⊎◌, inl, inr, String, Bool, true, false, Option, none, some, List, [], ◌∷◌, ◌==◌,
  if◌then◌else◌,
}
use health_go.Base.Text.{◌<>◌}
use health_go.Types.{Error}
use health_go.Check.{CheckResponse}

-- what a call returns: an error that is not nil, or a value
pub data Reply (V : Type 0) : Type 0 where
  refused : String → Reply V
  value : V → Reply V

abbrev pub answered : {V : Type 0} → Reply V → Bool
answered (refused e) = false
answered (value v) = true

pub Reply-cases :
    {V : Type 0} (r : Reply V) → ((e : String) × (r ≡ refused e)) ⊎ ((v : V) × (r ≡ value v))
Reply-cases (refused e) = inl (e, refl)
Reply-cases (value v) = inr (v, refl)

abbrev pub Trace : Type 0 → Type 0 → Type 0
Trace C V = List (C × Reply V)

-- the rest of a check: its error, and the trace after it and its deferred calls
abbrev pub Body : Type 0 → Type 0 → Type 0
Body C V = Trace C V → Error × Trace C V

-- `fmt.Errorf("<message>: %w", err)`
abbrev pub wrap : String → String → String
wrap message error = message <> ": " <> error

-- `if err := ...; err != nil && checkResponse.Error == nil`
abbrev pub override : Error → String → Error
override none message = some message
override (some e) message = some e

module _ {C V : Type 0} where
  -- the end of a check, with no error or with one
  unfoldable pub succeed : Body C V
  succeed trace = (none, trace)

  unfoldable pub fail : String → Body C V
  fail message trace = (some message, trace)

  -- `if ... { checkResponse.Error = ...; return }`, with the test that lets the check go on
  unfoldable pub demand : Bool → String → Body C V → Body C V
  unfolding fail
  demand true message body = body
  demand false message body = fail message

  module _ (answer : Trace C V → C → Reply V) where
    -- a call, whose error ends the check
    unfoldable pub call : C → String → (V → Body C V) → Body C V
    call c message next trace = elim (answer trace c) [
      | refused e ↦ (some (wrap message e), (c, refused e) ∷ trace)
      | value v ↦ next v ((c, value v) ∷ trace)
    ]

    -- a call that cannot fail, or whose error is dropped
    unfoldable pub perform : C → Body C V → Body C V
    perform c body trace = body ((c, answer trace c) ∷ trace)

    -- a deferred call, whose error counts if there was none before
    unfoldable pub deferred : C → String → Body C V → Body C V
    deferred c message body trace =
        let (error, t) = body trace in
        elim (answer t c) [
          | refused e ↦ (override error (wrap message e), (c, refused e) ∷ t)
          | value v ↦ (error, (c, value v) ∷ t)
        ]

    -- a deferred call that cannot fail, or whose error is dropped
    unfoldable pub finally : C → Body C V → Body C V
    finally c body trace = let (error, t) = body trace in (error, (c, answer t c) ∷ t)

-- the response of a check
abbrev pub respond : Error → CheckResponse
respond error = record { error = error; is_warning = false; no_notification = false }
