-- ===== src/Health/Service/Runs.antt =====
-- health.go and check.go: sequences of events of a container.
use health_go.Base.{String, some, List, [], ◌∷◌, ◌≡◌, none, Option-cases, inl, inr}
use health_go.Base.Int.{ℤ}
use health_go.Base.Lists.{All}
use health_go.Base.GoMap.{get}
use health_go.Notifications.{Notifications}
use health_go.Check.{CheckConfig, pause, start}
use health_go.Health.{Health}
use health_go.Health.Service.{
  Event, registered, ran, paused, started, received, disabled, enabled_again, serve, serve_one,
  run_config, pause_config, start_config, with_config,
}
use health_go.Health.Container.{Container, new, operations}
use health_go.Health.Service.Options.{Setting, options_of, saved_tracker, new-IsServing}
use health_go.Health.Service.Serving.{
  IsServing, IsUsual, run_config-IsServing, set_loop-IsServing, register-IsServing,
}

with_config-IsServing :
    (f : CheckConfig → Health → Health) (name : String) {h : Health}
    → IsServing h
    → ((c : CheckConfig) → get name h.checks ≡ some c → IsServing (f c h))
    → IsServing (with_config f name h)
unfolding with_config
with_config-IsServing f name {h} serving each = elim (Option-cases (get name h.checks)) [
  | inl missing ↦ rw (with_config, missing) serving
  | inr found ↦ let (c, e) = found in rw (with_config, e) (each c e)
]

same_tracker-IsServing :
    {h : Health} (n : Notifications)
    → IsServing h
    → IsServing (record h { world = record h.world { notifications = n } })
same_tracker-IsServing n serving = record {
  distinct = serving.distinct;
  valid = serving.valid;
  entry = serving.entry;
  absent = serving.absent;
}

pub serve_one-IsServing :
    (e : Event) {h : Health} → IsUsual e → IsServing h → IsServing (serve_one e h)
unfolding serve_one
serve_one-IsServing (registered env saved c) usual serving =
    register-IsServing env saved c usual serving
serve_one-IsServing (ran env name outcome) usual serving =
    with_config-IsServing (run_config env outcome) name serving
      (λ c found. run_config-IsServing env name outcome c usual serving found)
serve_one-IsServing (paused name) {h} usual serving =
    with_config-IsServing pause_config name serving
      (λ c found. set_loop-IsServing name c (pause c.runtime h.loops) serving found)
serve_one-IsServing (started name) {h} usual serving =
    with_config-IsServing start_config name serving
      (λ c found. set_loop-IsServing name c (start c.runtime h.loops) serving found)
serve_one-IsServing (received n) usual serving = same_tracker-IsServing _ serving
serve_one-IsServing (disabled now suppress_time) usual serving = same_tracker-IsServing _ serving
serve_one-IsServing enabled_again usual serving = same_tracker-IsServing _ serving

pub serve-IsServing :
    (es : List Event) {h : Health} → All IsUsual es → IsServing h → IsServing (serve es h)
unfolding serve
serve-IsServing [] usual serving = serving
serve-IsServing (e ∷ es) usual serving =
    serve-IsServing es usual.1 (serve_one-IsServing e usual.0 serving)

-- After any registrations, runs, pauses and starts of checks, and any use of the notifications, a
-- container that New returned, with any options but WithChecks and with no saved state of the tracker, has a
-- valid tracker that agrees with its checks: a registered check is
-- passing just when the tracker holds no event for it, and the tracker holds events of no other
-- names. UUIDs have sixteen bytes, and a state that was saved for a check is passing, warning,
-- critical or timeout.
pub service-IsServing :
    {S : Type 0} (cpus : ℤ) (settings : List (Setting S)) (store : S) (h₀ : Container S)
    (es : List Event)
    → new cpus (options_of settings) store ≡ inl h₀
    → saved_tracker (operations h₀.persister) store ≡ none
    → All IsUsual es
    → IsServing (serve es h₀.health)
service-IsServing cpus settings store h₀ es made nothing usual =
    serve-IsServing es usual (new-IsServing cpus settings store h₀ made nothing)
