-- ===== src/Health/Endpoint/Response.antt =====
-- health.go, HandlerFunc, with events.go: when the endpoint answers 200.
use health_go.Base.{
  String, Bool, true, false, none, some, List, [], ◌≡◌, refl, arith, ◌⊎◌, inl, inr, ◌↔◌, Sum-cases,
  if◌then◌else◌,
}
use health_go.Base.Int.{ℤ}
use health_go.Base.Lists.{All}
use health_go.Types.{Time}
use health_go.Events.{active_events}
use health_go.Health.{http_code}
use health_go.Health.Container.{Container, new, operations}
use health_go.Health.Service.{Event, serve}
use health_go.Health.Service.Runs.{service-IsServing}
use health_go.Health.Service.Options.{Setting, options_of, saved_tracker}
use health_go.Health.Service.Serving.{IsUsual, IsServing}
use health_go.Health.Service.Answer.{answer-ok_iff}
use health_go.Health.Endpoint.{
  Check, Runtime, handler_func, check_of, respond, new_check, new_system_metrics,
}

abbrev pub is_encoded : {B : Type 0} → B ⊎ String → Bool
is_encoded (inl bytes) = true
is_encoded (inr e) = false

respond-ok :
    {B : Type 0} (marshal : Check → B ⊎ String) (c : Check)
    → ((respond marshal c).code ≡ 200)
      ↔ ((is_encoded (marshal c) ≡ true) × (http_code c.status ≡ 200))
unfolding respond
respond-ok marshal c = elim (Sum-cases (marshal c)) [
  | inl encoded ↦
      let (bytes, e) = encoded in
      (λ ok. (rw e refl, rw (respond, e) at ok), λ both. rw (respond, e) both.1)
  | inr broken ↦
      let (message, e) = broken in
      (
        λ ok. let not_500 : 500 ≡ 200 = rw (respond, e) at ok in ground (arith, not_500),
        λ both. let same = (rw e at both).0 in cc,
      )
]

-- what a container answers, and when its code is 200
abbrev pub AnswersWhenClear :
    {S B : Type 0} → (Check → B ⊎ String) → Runtime → Time → Container S → Type 0
AnswersWhenClear marshal runtime now h =
    (c : Check) × (check_of runtime now h ≡ some c)
    × (handler_func marshal runtime now h ≡ some (respond marshal c))
    × (((respond marshal c).code ≡ 200)
        ↔ ((is_encoded (marshal c) ≡ true) × (active_events h.health.world.tracker ≡ [])))

pub serving_answer :
    {S B : Type 0} (marshal : Check → B ⊎ String) (runtime : Runtime) (now : Time) (h : Container S)
    → IsServing h.health
    → AnswersWhenClear marshal runtime now h
unfolding check_of handler_func
serving_answer marshal runtime now h serving =
    let (a, answers, iff) = answer-ok_iff h.health serving in
    let c : Check =
      new_check now h.component a.0
        (if h.health.system_info_enabled then some (new_system_metrics runtime) else none) a.1 in
    let own = respond-ok marshal c in
    (
      c,
      rw answers refl,
      rw answers refl,
      (λ ok. let both = own.0 ok in (both.0, iff.0 both.1), λ both. own.1 (both.0, iff.1 both.1)),
    )

-- A container that New returned, with any options but WithChecks and with no saved state of the tracker,
-- answers a request after any registrations, runs, pauses and starts of checks, and any use of the
-- notifications, and answers 200 exactly when the answer can be encoded and the tracker holds no
-- event of any check. UUIDs have sixteen bytes, and a state that was saved for a check is passing,
-- warning, critical or timeout.
pub handler_func-ok_iff :
    {S B : Type 0} (marshal : Check → B ⊎ String) (runtime : Runtime) (now : Time) (cpus : ℤ)
    (settings : List (Setting S)) (s : S) (h₀ h : Container S) (es : List Event)
    → new cpus (options_of settings) s ≡ inl h₀
    → saved_tracker (operations h₀.persister) s ≡ none
    → All IsUsual es
    → h.health ≡ serve es h₀.health
    → (c : Check) × (check_of runtime now h ≡ some c)
      × (handler_func marshal runtime now h ≡ some (respond marshal c))
      × (((respond marshal c).code ≡ 200)
          ↔ ((is_encoded (marshal c) ≡ true) × (active_events h.health.world.tracker ≡ [])))
handler_func-ok_iff marshal runtime now cpus settings s h₀ h es made nothing usual served =
    serving_answer marshal runtime now h
      (rw served (service-IsServing cpus settings s h₀ es made nothing usual))
