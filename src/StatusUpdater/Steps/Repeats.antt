-- ===== src/StatusUpdater/Steps/Repeats.antt =====
-- status.go and events.go: a number that is given twice for one event.
use health_go.Base.{
  String, Bool, true, false, Option, none, some, ◌≡◌, ◌≢◌, refl, ◌∙◌, sym, ap, arith, ◌==◌, eq_iff,
  get_or, inl, inr, Bool-cases,
}
use health_go.Base.Int.{ℤ, pos, inc}
use health_go.Base.GoMap.{get}
use health_go.Types.{passing, Error}
use health_go.Events.Uuid.{IsUuid}
use health_go.Events.Operations.{apply}
use health_go.Events.Reports.{recovery_detaches}
use health_go.Events.Invariant.{IsValid, get_or_create_event_id-IsValid}
use health_go.Events.Sequences.{counter, report-counter}
use health_go.StatusUpdater.{World, Env, status_message}
use health_go.StatusUpdater.Steps.{Phase, reporting, showing, sending}
use health_go.StatusUpdater.Steps.Interleaving.{Running, Reach, Reach-trans, with_check}
use health_go.StatusUpdater.Steps.Sequential.{State, steps}
use health_go.StatusUpdater.Steps.Alone.{state_of, state_of-here, state_of-other, alone-to}
use health_go.StatusUpdater.Steps.Race.{recovered, reported_state, numbered_state, finished_state}

-- a check whose passing results have reached the threshold, before it reports its recovery from an event
pub record IsRecovering (s : Running) (id name : String) (err : Error) : Type 0 where
  pub phase : s.phase name ≡ reporting passing err true
  pub named : (s.updater name).actions.check_name ≡ name
  pub tracked : (s.updater name).tracked ≡ true
  pub held : get name s.world.tracker.event_ids ≡ some id

module _ (known : String → Bool) (env : Env) (fed : IsUuid env.uuid) (s : Running) (id a b : String)
    (err err' : Error) (valid : IsValid s.world.tracker) (apart : (a == b) ≡ false)
    (here : known a ≡ true) (here' : known b ≡ true) (ra : IsRecovering s id a err)
    (rb : IsRecovering s id b err')
    (alone : (j : String)
      → (a == j) ≡ false
      → (b == j) ≡ false
      → get j s.world.tracker.event_ids ≢ some id) where
  abbrev w₁ : World
  w₁ = record s.world { tracker = recovered env a s.world.tracker }

  abbrev w₂ : World
  w₂ = record w₁ { tracker = recovered env b w₁.tracker }

  abbrev y₁ : State
  y₁ = (showing passing err true id, s.updater a, w₁)

  abbrev y₂ : State
  y₂ = (showing passing err' true id, s.updater b, w₂)

  nonempty : (id == "") ≡ false
  nonempty = valid.ids_nonempty a id ra.held

  -- once both have reported
  abbrev s₂ : Running
  s₂ = with_check b (with_check a s y₁) y₂

  Reach-both : Reach known s s₂
  Reach-both =
      let held : get b w₁.tracker.event_ids ≡ some id =
        (recovery_detaches env.uuid a passing s.world.tracker refl).1 b ∙ rw apart rb.held in
      let e : steps 1 env (state_of a s) ≡ y₁ =
        ap (λ (p : Phase). steps 1 env (p, s.updater a, s.world)) ra.phase
        ∙ reported_state env err id a (s.updater a) s.world ra.named ra.tracked ra.held in
      let e' : steps 1 env (state_of b (with_check a s y₁)) ≡ y₂ =
        ap (steps 1 env) (state_of-other a b s y₁ apart)
        ∙ ap (λ (p : Phase). steps 1 env (p, s.updater b, w₁)) rb.phase
        ∙ reported_state env err' id b (s.updater b) w₁ rb.named rb.tracked held in
      Reach-trans (alone-to known a env here fed 1 s e) (alone-to known b env here' fed 1 _ e')

  -- nobody holds the event any more
  detached : (j : String) → get j w₂.tracker.event_ids ≢ some id
  detached j holds =
      let first = (recovery_detaches env.uuid a passing s.world.tracker refl).1 j in
      let second = (recovery_detaches env.uuid b passing w₁.tracker refl).1 j in
      elim (Bool-cases (b == j)) [
        | inl own ↦ let e : some id ≡ none = sym holds ∙ second ∙ rw own refl in cc
        | inr other ↦ elim (Bool-cases (a == j)) [
          | inl own ↦
              let e : some id ≡ none = sym holds ∙ second ∙ rw other (first ∙ rw own refl) in cc
          | inr far ↦ alone j far other (sym (second ∙ rw other (first ∙ rw far refl)) ∙ holds)
        ]
      ]

  w₂-IsValid : IsValid w₂.tracker
  w₂-IsValid =
      get_or_create_event_id-IsValid env.uuid b passing fed
        (get_or_create_event_id-IsValid env.uuid a passing fed valid)

  same_counter : counter id w₂.tracker ≡ counter id s.world.tracker
  unfolding apply
  same_counter =
      ap (λ m. get_or (get id m) (pos 0))
        (report-counter env.uuid b passing w₁.tracker
          ∙ report-counter env.uuid a passing s.world.tracker)

  apart' : (b == a) ≡ false
  apart' = ground (arith, eq_iff a b, eq_iff b a)

  -- the first check, alone from there on
  abbrev start_a : State
  start_a = (showing passing err true id, s.updater a, w₂)

  abbrev m : Running
  m = with_check a s₂ (steps 2 env start_a)

  abbrev s₄ : Running
  s₄ = with_check a m (steps 5 env start_a)

  abbrev start_b : State
  start_b = (showing passing err' true id, s.updater b, (steps 5 env start_a).2)

  abbrev t : Running
  t = with_check b s₄ (steps 2 env start_b)

  state_a : state_of a s₂ ≡ start_a
  state_a =
      state_of-other b a (with_check a s y₁) y₂ apart'
      ∙ ap (λ (y : State). (y.0, y.1, w₂)) (state_of-here a s y₁)

  state_b : state_of b s₄ ≡ start_b
  state_b =
      state_of-other a b m (steps 5 env start_a) apart
      ∙ ap (λ (y : State). (y.0, y.1, (steps 5 env start_a).2))
          (state_of-other a b s₂ (steps 2 env start_a) apart
            ∙ ap (λ (y : State). (y.0, y.1, (steps 2 env start_a).2))
                (state_of-here b (with_check a s y₁) y₂))

  Reach-m : Reach known s m
  Reach-m = Reach-trans Reach-both (alone-to known a env here fed 2 s₂ (ap (steps 2 env) state_a))

  Reach-t : Reach known m t
  unfolding steps
  Reach-t =
      Reach-trans
        (alone-to known a env here fed 3 m
          (ap (steps 3 env) (state_of-here a s₂ (steps 2 env start_a))))
        (alone-to known b env here' fed 2 s₄ (ap (steps 2 env) state_b))

  -- Two checks hold one event, and no other check does, in a valid tracker, and both have passed often enough and are
  -- about to report their recovery. Then their updates can overlap so that the notification of the one
  -- gets the next number of the event, and that of the other, which comes later, is number 1 again.
  pub number-repeated :
      (m t : Running) × Reach known s m
      × Reach known m t
      × (m.phase a
          ≡ sending passing (status_message passing err) id (inc (counter id s.world.tracker)))
      × (t.phase b ≡ sending passing (status_message passing err') id (pos 1))
  number-repeated =
      let (rests, gone) =
        finished_state env err id (s.updater a) w₂ ra.tracked nonempty w₂-IsValid.ids_map
          detached in
      (
        m,
        t,
        Reach-m,
        Reach-t,
        ap (λ (y : State). y.0) (state_of-here a s₂ (steps 2 env start_a))
            ∙ numbered_state env err id (s.updater a) w₂ ra.tracked nonempty
            ∙ ap (λ n. sending passing (status_message passing err) id (inc n)) same_counter,
        ap (λ (y : State). y.0) (state_of-here b s₄ (steps 2 env start_b))
            ∙ numbered_state env err' id (s.updater b) (steps 5 env start_a).2 rb.tracked nonempty
            ∙ ap
                (λ (o : Option ℤ).
                  sending passing (status_message passing err') id (inc (get_or o (pos 0))))
                gone,
      )
