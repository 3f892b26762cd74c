-- ===== src/Examples/Turns.antt =====
-- _examples: the turns of a program that serves.
use health_go.Base.{
  String, true, some, List, [], ◌∷◌, ◌≡◌, refl, arith, Option-cases, inl, inr, eq_iff, ◌==◌, sym,
}
use health_go.Base.Lists.{All}
use health_go.Events.Uuid.{IsUuid}
use health_go.Notifications.{Notifications}
use health_go.Check.{response}
use health_go.Health.{Health}
use health_go.Health.Service
use health_go.Health.Service.{serve}
use health_go.Health.Service.Serving.{IsServing, IsUsual}
use health_go.Health.Service.Runs.{serve-IsServing}
use health_go.Health.Service.Unhealthy.{IsUnhealthy, IsHopeless, is_failure, serve-IsUnhealthy}
use health_go.Examples.{
  Example, Turn, answered, late, paused, started, received, turn_events, take_turns, run_function,
  function_of, fails, CheckFunction, Surroundings,
}

-- the UUIDs are as documented
abbrev pub IsFed : Turn → Type 0
IsFed (answered env s name) = IsUuid env.uuid
IsFed (late env s name) = IsUuid env.uuid
IsFed _ = Unit

-- a check that always fails
module _ (name message : String) (examples : List Example)
    (hopeless : function_of name examples ≡ some (fails message)) where
  Harmless : List Service.Event → Type 0
  Harmless es = All IsUsual es × All (IsHopeless name) es

  -- its function is the one that always fails
  own_run :
      (other : String) (f : CheckFunction) (s : Surroundings) (n : Notifications)
      → function_of other examples ≡ some f
      → (other == name) ≡ true
      → is_failure (response (run_function s f n).0) ≡ true
  unfolding run_function
  own_run other f s n found own =
      let same : other ≡ name = (eq_iff other name).0 own in
      let mine : function_of name examples ≡ some f = rw (sym same) found in
      let known : f ≡ fails message = ground (arith, mine, hopeless) in rw known refl

  turn-Harmless : (t : Turn) (h : Health) → IsFed t → Harmless (turn_events examples t h)
  unfolding turn_events run_function Harmless
  turn-Harmless (answered env s other) h fed = elim (Option-cases (function_of other examples)) [
    | inl missing ↦ rw (turn_events, missing) (tt, tt)
    | inr found ↦
        rw (turn_events, found.1)
          (
            (tt, (fed, tt)),
            (tt, ((λ own. own_run other found.0 s h.world.notifications found.1 own), tt)),
          )
  ]
  turn-Harmless (late env s other) h fed = elim (Option-cases (function_of other examples)) [
    | inl missing ↦ rw (turn_events, missing) (tt, tt)
    | inr found ↦ rw (turn_events, found.1) ((tt, (fed, tt)), (tt, ((λ own. refl), tt)))
  ]
  turn-Harmless (paused other) h fed = ((tt, tt), (tt, tt))
  turn-Harmless (started other) h fed = ((tt, tt), (tt, tt))
  turn-Harmless (received n) h fed = ((tt, tt), (tt, tt))

  pub turns-IsUnhealthy :
      (ts : List Turn) {h : Health}
      → All IsFed ts
      → IsServing h
      → IsUnhealthy name h
      → IsServing (take_turns examples ts h) × IsUnhealthy name (take_turns examples ts h)
  unfolding take_turns Harmless
  turns-IsUnhealthy [] fed serving bad = (serving, bad)
  turns-IsUnhealthy (t ∷ ts) {h} fed serving bad =
      let es = turn_events examples t h in
      let (usual, lost) = turn-Harmless t h fed.0 in
      turns-IsUnhealthy ts fed.1 (serve-IsServing es usual serving)
        (serve-IsUnhealthy name es lost usual serving bad)
