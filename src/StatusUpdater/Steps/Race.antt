-- ===== src/StatusUpdater/Steps/Race.antt =====
-- status.go and events.go: two checks that recover at the same time from an event that they share.
use health_go.Base.{
  String, Bool, true, false, none, some, ◌≡◌, ◌≢◌, refl, ◌∙◌, ap, ◌==◌, eq_refl, if◌then◌else◌, inl,
  inr, Bool-cases, eq_iff,
}
use health_go.Base.Int.{inc}
use health_go.Base.GoMap.{get, IsMap, get_of_any_value, any_value, get-delete}
use health_go.Types.{passing, Error}
use health_go.Events.{EventTracker, get_or_create_event_id, get_event_id, clear_sequence}
use health_go.Events.Reports.{recovery_detaches}
use health_go.Events.Sequences.{counter, number-result}
use health_go.StatusUpdater.{
  StatusUpdater, World, Env, event_id_of, next_sequence, status_message, release_event,
}
use health_go.StatusUpdater.Coherence.{IsQuiet, Touches-quiet}
use health_go.StatusUpdater.Steps.{
  Phase, idle, reporting, showing, numbering, sending, acting, advance,
}
use health_go.StatusUpdater.Steps.Coherent.{advance-Touches, IsSilent}
use health_go.StatusUpdater.Steps.Sequential.{State, steps}

-- the tracker after the report of a recovery
abbrev pub recovered : Env → String → EventTracker → EventTracker
recovered env x t = (get_or_create_event_id env.uuid x passing t).1

module _ (env : Env) (err : Error) (id : String) where
  abbrev told : String → World → Bool → String × World
  told x w tracked =
      let (event_id, t) = get_or_create_event_id env.uuid x passing w.tracker in
      if tracked then (event_id, record w { tracker = t }) else ("", w)

  pub reported_state :
      (x : String) (u : StatusUpdater) (w : World)
      → u.actions.check_name ≡ x
      → u.tracked ≡ true
      → get x w.tracker.event_ids ≡ some id
      → steps 1 env (reporting passing err true, u, w)
        ≡ (showing passing err true id, u, record w { tracker = recovered env x w.tracker })
  unfolding steps advance event_id_of get_event_id
  reported_state x u w named tracked held =
      let own = (recovery_detaches env.uuid x passing w.tracker refl).0 in
      ap (λ (k : String). let r = told k w u.tracked in (showing passing err true r.0, u, r.1))
        named
      ∙ ap (λ (b : Bool). let r = told x w b in (showing passing err true r.0, u, r.1)) tracked
      ∙ ap
          (λ (i : String).
            (showing passing err true i, u, record w { tracker = recovered env x w.tracker }))
          (own ∙ rw held refl)

  -- the number that the notification of a recovery gets
  pub numbered_state :
      (u : StatusUpdater) (w : World)
      → u.tracked ≡ true
      → (id == "") ≡ false
      → (steps 2 env (showing passing err true id, u, w)).0
        ≡ sending passing (status_message passing err) id (inc (counter id w.tracker))
  unfolding steps advance next_sequence
  numbered_state u w tracked named =
      rw tracked
        (ap (sending passing (status_message passing err) id) (number-result id w.tracker named))

  cleared :
      (t : EventTracker)
      → (id == "") ≡ false
      → IsMap t.event_ids
      → ((j : String) → get j t.event_ids ≢ some id)
      → get id (clear_sequence id t).sequences ≡ none
  unfolding clear_sequence
  cleared t named m alone = elim (Bool-cases (any_value (λ j. j == id) t.event_ids)) [
    | inl e ↦
        let (j, i, g, same) = get_of_any_value (λ j. j == id) t.event_ids m e in
        absurd (alone j (g ∙ ap some ((eq_iff i id).0 same)))
    | inr e ↦ rw (named, e) (get-delete id id t.sequences ∙ rw eq_refl refl)
  ]

  released :
      (u : StatusUpdater) (w w' : World)
      → u.tracked ≡ true
      → (id == "") ≡ false
      → IsMap w.tracker.event_ids
      → ((j : String) → get j w.tracker.event_ids ≢ some id)
      → w'.tracker.event_ids ≡ w.tracker.event_ids
      → get id (release_event id u w').tracker.sequences ≡ none
  unfolding release_event
  released u w w' tracked named m alone ids =
      rw (named, tracked)
        (cleared w'.tracker named (rw ids m) (λ j held. alone j (rw (← ids) held)))

  kept :
      (p : Phase) (u : StatusUpdater) (w : World)
      → IsSilent p
      → (advance env p u w).2.tracker.event_ids ≡ w.tracker.event_ids
  kept p u w silent = Touches-quiet (advance-Touches IsQuiet (λ i. tt) (λ i. tt) env p u w silent)

  pub finished_state :
      (u : StatusUpdater) (w : World)
      → u.tracked ≡ true
      → (id == "") ≡ false
      → IsMap w.tracker.event_ids
      → ((j : String) → get j w.tracker.event_ids ≢ some id)
      → let y = steps 5 env (showing passing err true id, u, w) in
        (y.0 ≡ idle) × (get id y.2.tracker.sequences ≡ none)
  unfolding steps advance
  finished_state u w tracked named m alone =
      let x₁ : State = steps 1 env (showing passing err true id, u, w) in
      let x₃ : State = steps 3 env (showing passing err true id, u, w) in
      let x₄ : State = steps 4 env (showing passing err true id, u, w) in
      let message = status_message passing err in
      let ids : x₄.2.tracker.event_ids ≡ w.tracker.event_ids =
        kept (acting passing message id) x₃.1 x₃.2 tt
        ∙ kept (numbering passing message id) x₁.1 x₁.2 tt in
      (refl, released x₄.1 w x₄.2 tracked named m alone ids)
