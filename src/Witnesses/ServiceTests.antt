-- ===== src/Witnesses/ServiceTests.antt =====
-- health.go, check.go and the ready-made checks: the theorems at concrete inputs.
use health_go.Base.{
  String, true, false, not, none, some, List, [], ◌∷◌, ℕ, suc, ◌+◌, ◌*◌, ◌≤◌, ◌<◌, ◌≡◌, arith, ◌↔◌,
  is_some, refl, ◌⊎◌, inl, inr,
}
use health_go.Base.Int.{pos, pos_part}
use health_go.Base.Lists.{All, length}
use health_go.Events.{active_events}
use health_go.Check.{CheckResponse, response, expired, jitter}
use health_go.Check.Loop.{responds, hangs, Wakeup, due, run_check_with_chan, in_flight}
use health_go.Check.Loop.Progress.{Prompt, run_check_with_chan-progress, OnTime}
use health_go.Check.Loop.Spacing.{in_flight-bounded}
use health_go.Health.Service.{
  Event, registered, ran, paused, started, disabled, enabled_again, serve,
}
use health_go.Health.Service.Serving.{IsServing, IsUsual}
use health_go.Health.Service.Runs.{service-IsServing}
use health_go.Health.Container.{Container}
use health_go.Health.Endpoint.{Check, Runtime, check_of, respond, handler_func}
use health_go.Health.Endpoint.Response.{is_encoded, handler_func-ok_iff}
use health_go.Checkers.{Reply, value, Trace}
use health_go.Checkers.Failures.{all_fine}
use health_go.Checkers.Completeness.{calls}
use health_go.Checkers.Verdicts.{IsSound}
use health_go.Checkers.Rabbitmq
use health_go.Checkers.Rabbitmq.Phases.{fine as rabbitmq_fine, phases, rabbitmq-healthy}
use health_go.Checkers.Sql
use health_go.Checkers.Sql.Kept.{role as sql_role, fine as sql_fine, sql_checks-IsSound}
use health_go.Witnesses.Data.{settings, made, settings-made, config, env, uuid_a-IsUuid}

abbrev refusal : CheckResponse
refusal = record { error = some "refused"; is_warning = false; no_notification = false }

-- the database check fails twice, is paused, and recovers
abbrev day : List Event
day =
    registered env none config
    ∷ ran env "db" (response refusal)
    ∷ ran env "db" expired
    ∷ paused "db"
    ∷ disabled 5 (pos 100)
    ∷ started "db"
    ∷ ran env "db" (response (record refusal { error = none }))
    ∷ enabled_again
    ∷ []

day-IsUsual : All IsUsual day
day-IsUsual = (
  (uuid_a-IsUuid, tt),
  (uuid_a-IsUuid, (uuid_a-IsUuid, (tt, (tt, (tt, (uuid_a-IsUuid, (tt, tt))))))),
)

service-IsServing_example : IsServing (serve day made.health)
service-IsServing_example =
    service-IsServing (pos 4) settings 0 made day settings-made refl day-IsUsual

abbrev served : Container ℕ
served = record made { health = serve day made.health }

abbrev broken_marshal : Check → ℕ ⊎ String
broken_marshal c = elim c.system [ none ↦ inl 0 | some system ↦ inr "unsupported value" ]

abbrev go : Runtime
go = record {
  go_version = "go1.22";
  num_goroutine = pos 7;
  total_alloc = 18446744073709551615;
  heap_objects = 10;
  alloc = 20;
}

handler_func-ok_iff_example :
    (c : Check) × (check_of go 90 served ≡ some c)
    × (handler_func broken_marshal go 90 served ≡ some (respond broken_marshal c))
    × (((respond broken_marshal c).code ≡ 200) ↔ (
        (is_encoded (broken_marshal c) ≡ true) × (active_events served.health.world.tracker ≡ [])))
handler_func-ok_iff_example =
    handler_func-ok_iff broken_marshal go 90 (pos 4) settings 0 made served day settings-made refl
      day-IsUsual refl

abbrev wakeups : List Wakeup
wakeups = due 1 false hangs ∷ due 0 true (responds 20 refusal) ∷ due 2 false hangs ∷ []

wakeups-Prompt : All (Prompt 2) wakeups
wakeups-Prompt = (omega arith, (omega arith, (omega arith, tt)))

run_check_with_chan-progress_example :
    let runs = run_check_with_chan (pos 10) (pos 20) 3 100 false hangs wakeups in
    (length runs ≡ suc (length wakeups))
    × OnTime 100 (100 + jitter 3 (pos 10)) (pos_part (pos 10)) 2 runs
run_check_with_chan-progress_example =
    run_check_with_chan-progress (pos 10) (pos 20) 3 100 false hangs wakeups 2 wakeups-Prompt

wakeups-made :
    All (λ r. r.started ≤ 130) (run_check_with_chan (pos 10) (pos 20) 3 100 false hangs wakeups)
unfolding run_check_with_chan jitter
wakeups-made = (omega arith, (omega arith, (omega arith, (omega arith, tt))))

in_flight-bounded_example :
    (m : ℕ) × (in_flight 130 (run_check_with_chan (pos 10) (pos 20) 3 100 false hangs wakeups)
      ≤ suc (suc m))
    × (m * pos_part (pos 10) < pos_part (pos 20))
in_flight-bounded_example =
    in_flight-bounded (pos 10) (pos 20) 3 100 false hangs wakeups 130 (omega arith) wakeups-made

abbrev broker : Rabbitmq.Config
broker = record {
  dsn = "amqp://localhost";
  exchange = "health_check";
  routing_key = "host";
  queue = "health_check.host";
  consume_timeout = pos 3000000000;
  dial_timeout = pos 200000000;
}

abbrev all_answered : {C V : Type 0} → V → Trace C V → C → Reply V
all_answered v trace c = value v

abbrev delivered : Rabbitmq.Log → Rabbitmq.Seen
delivered trace = Rabbitmq.received

rabbitmq-healthy_example :
    (not (is_some (Rabbitmq.check (all_answered none) delivered broker).0.error)
      ≡ all_fine rabbitmq_fine (Rabbitmq.check (all_answered none) delivered broker).1)
    × ((is_some (Rabbitmq.check (all_answered none) delivered broker).0.error ≡ true)
        ⊎ (calls (Rabbitmq.check (all_answered none) delivered broker).1 ≡ phases broker))
rabbitmq-healthy_example = rabbitmq-healthy (all_answered none) delivered broker

abbrev database : Sql.Config
database = record { dsn = "localhost" }

sql_checks-IsSound_example :
    IsSound sql_role (sql_fine true) (Sql.mysql_check (all_answered tt) database)
    × IsSound sql_role (sql_fine true) (Sql.postgres_check (all_answered tt) database)
    × IsSound sql_role (sql_fine false) (Sql.pgx4_check (all_answered tt) database)
    × IsSound sql_role (sql_fine false) (Sql.pgx5_check (all_answered tt) database)
sql_checks-IsSound_example = sql_checks-IsSound (all_answered tt) database
