-- ===== src/Checkers/Rabbitmq.antt =====
-- checks/rabbitmq/check.go: a message is published to the health check's own queue and consumed from it.
-- Whether a message arrives is decided by the broker and the goroutine that receives it: the answer of
-- the call `wait` is what the `select` sees first.
pub mod Phases
use health_go.Base.{
  String, Bool, true, false, Option, none, some, [], ◌∷◌, ◌==◌, if◌then◌else◌, get_or,
}
use health_go.Base.Int.{ℤ, pos, cmp_or}
use health_go.Base.Text.{◌<>◌}
use health_go.Check.{CheckResponse}
use health_go.Checkers.{
  Reply, refused, value, Trace, Body, wrap, succeed, fail, call, deferred, respond,
}

abbrev pub default_exchange : String
default_exchange = "health_check"

abbrev pub default_dial_timeout : ℤ
default_dial_timeout = pos 200000000

abbrev pub default_consume_timeout : ℤ
default_consume_timeout = pos 3000000000

pub record Config : Type 0 where
  pub dsn : String
  pub exchange : String
  pub routing_key : String
  pub queue : String
  pub consume_timeout : ℤ
  pub dial_timeout : ℤ

-- `cmp.Or` on texts
abbrev pub or_text : String → String → String
or_text s default = if s == "" then default else s

-- `hostname` is the result of `os.Hostname`, `none` for an error
unfoldable pub defaults : Option String → Config → Config
defaults hostname c =
    let exchange = or_text c.exchange default_exchange in
    let routing_key = or_text c.routing_key (get_or hostname "-unknown-") in
    record {
      dsn = c.dsn;
      exchange = exchange;
      routing_key = routing_key;
      queue = or_text c.queue ((exchange <> ".") <> routing_key);
      consume_timeout = cmp_or c.consume_timeout default_consume_timeout;
      dial_timeout = cmp_or c.dial_timeout default_dial_timeout;
    }

-- the calls of the client, with the arguments that come from the configuration
pub data Call : Type 0 where
  dial : String → ℤ → Call
  channel : Call
  exchange_declare : String → Call
  queue_declare : String → Call
  queue_bind : String → String → String → Call
  consume : String → Call
  publish : String → String → Call
  wait : ℤ → Call
  close_channel close_connection : Call

-- what the select sees: the end of the consume timeout, the end of the context with its error, or
-- that the receive from the channel of messages has ended, with a message or because the channel
-- was closed
pub data Seen : Type 0 where
  timed_out : Seen
  disconnected : String → Seen
  received message_channel_closed : Seen

-- what a call returns beside its error matters for the `select` alone
abbrev pub Log : Type 0
Log = Trace Call (Option Seen)

-- the `err` that the message of the consume timeout wraps is nil, which `%w` prints as here
unfoldable pub after_wait : Seen → Body Call (Option Seen)
unfolding succeed fail
after_wait timed_out = fail "RabbitMQ health check failed due to consume timeout: %!w(<nil>)"
after_wait (disconnected e) =
    fail (wrap "RabbitMQ health check failed due to health check listener disconnect" e)
after_wait _ = succeed

module _ (answer : Log → Call → Reply (Option Seen)) (seen : Log → Seen) (c : Config) where
  -- the `select`
  unfoldable pub await : Body Call (Option Seen)
  unfolding after_wait
  await trace =
      let s = seen trace in after_wait s ((wait c.consume_timeout, value (some s)) ∷ trace)

  -- the phases on the channel
  unfoldable pub exchange_message : Body Call (Option Seen)
  unfolding call await
  exchange_message =
      call answer (exchange_declare c.exchange)
        "RabbitMQ health check failed during declaring exchange"
        (λ _.
          call answer (queue_declare c.queue) "RabbitMQ health check failed during declaring queue"
            (λ _.
              call answer (queue_bind c.queue c.routing_key c.exchange)
                "RabbitMQ health check failed during binding"
                (λ _.
                  call answer (consume c.queue) "RabbitMQ health check failed during consuming"
                    (λ _.
                      call answer (publish c.exchange c.routing_key)
                        "RabbitMQ health check failed during publishing" (λ _. await)))))

  unfoldable pub check_body : Body Call (Option Seen)
  unfolding call deferred exchange_message
  check_body =
      call answer (dial c.dsn c.dial_timeout) "RabbitMQ health check failed on dial phase" (λ _.
        deferred answer close_connection "RabbitMQ health check failed to close connection" (
          call answer channel "RabbitMQ health check failed on getting channel phase" (λ _.
            deferred answer close_channel "RabbitMQ health check failed to close channel"
              exchange_message)))

  -- the check function that `New` returns, with the configuration after `defaults`
  unfoldable pub check : CheckResponse × Log
  unfolding check_body
  check = let (error, trace) = check_body [] in (respond error, trace)
