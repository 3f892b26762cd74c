-- ===== src/Health/Service/Answer.antt =====
-- health.go, Status and HandlerFunc, with events.go: the answer of a container and the events of its tracker.
use health_go.Base.{
  String, true, none, some, List, [], ◌∷◌, ◌≡◌, refl, ◌↔◌, ap, arith, Option-cases, inl, inr,
}
use health_go.Base.Lists.{All}
use health_go.Base.GoMap.{GoMap, get, get-empty, All-of_get, get_of_All, empty_of_get}
use health_go.Types.{Status, passing, eq_status}
use health_go.Events.{EventTracker, active_events}
use health_go.StatusUpdater.{CheckStatus}
use health_go.Check.{CheckConfig}
use health_go.Health.{Health, http_code, overall}
use health_go.Health.Severity.{http_code-ok_iff}
use health_go.Health.Service.{check_statuses, status}
use health_go.Health.Service.Serving.{IsServing, IsRegistered}

-- A passing status is one that equals passing.
eq_passing : (s : Status) → (eq_status s passing ≡ true) ↔ (s ≡ passing)
eq_passing passing = (λ h. refl, λ h. refl)
eq_passing _ = (λ h. cc, λ h. ap (λ s. eq_status s passing) h)

module _ (t : EventTracker) where
  Registered : (String × CheckConfig) → Type 0
  Registered x = IsRegistered t x.0 x.1

  HasNoEvent : (String × CheckConfig) → Type 0
  HasNoEvent x = get x.0 t.event_ids ≡ none

  -- A check that agrees with the tracker is passing just when it has no event.
  passing-no_event :
      {name : String} {c : CheckConfig} (r : IsRegistered t name c)
      → (r.updater.check.status ≡ passing) ↔ (get name t.event_ids ≡ none)
  passing-no_event {name} r = (
    λ h. let e = (eq_passing r.updater.check.status).1 h in ground (arith, r.agrees),
    λ h. (eq_passing r.updater.check.status).0 (ground (arith, r.agrees)),
  )

  statuses-total :
      (checks : GoMap CheckConfig)
      → All Registered checks
      → (xs : List (String × CheckStatus)) × (check_statuses checks ≡ some xs)
        × (All (λ x. x.1.status ≡ passing) xs ↔ All HasNoEvent checks)
  unfolding check_statuses Registered HasNoEvent
  statuses-total [] all = ([], refl, (λ h. tt, λ h. tt))
  statuses-total ((key, c) ∷ cs) all =
      let (xs, e, iff) = statuses-total cs all.1 in
      let own = passing-no_event all.0 in
      (
        (c.name, all.0.updater.check) ∷ xs,
        rw (all.0.status, e) refl,
        (λ h. (own.0 h.0, iff.0 h.1), λ h. (own.1 h.0, iff.1 h.1)),
      )

pub answer-ok_iff :
    (h : Health)
    → IsServing h
    → (a : Status × GoMap String) × (status h ≡ some a)
      × ((http_code a.0 ≡ 200) ↔ (active_events h.world.tracker ≡ []))
unfolding status active_events HasNoEvent Registered
answer-ok_iff h serving =
    let t = h.world.tracker in
    let all = All-of_get (IsRegistered t) h.checks serving.distinct serving.entry in
    let (xs, e, iff) = statuses-total t h.checks all in
    let code = http_code-ok_iff xs in
    (
      overall xs,
      rw e refl,
      (
        λ ok. empty_of_get t.event_ids (λ k. elim (Option-cases (get k h.checks)) [
          | inl missing ↦ serving.absent k missing
          | inr found ↦
              let (c, registered) = found in
              get_of_All (λ k c. get k t.event_ids ≡ none) h.checks k c (iff.0 (code.0 ok))
                registered
        ]),
        λ none_held. code.1 (
            iff.1 (
              All-of_get (λ k c. get k t.event_ids ≡ none) h.checks serving.distinct
                (λ k c found. rw (none_held, get-empty) refl))),
      ),
    )
