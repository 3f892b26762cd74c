-- ===== src/StatusUpdater/Steps/Agreement.antt =====
-- status.go and events.go: the statuses and the events under every interleaving of the updates of all checks.
use health_go.Base.{
  String, Bool, true, false, none, ◌≡◌, refl, ◌∙◌, inl, inr, arith, ◌==◌, eq_iff, Bool-cases,
}
use health_go.Base.GoMap.{get}
use health_go.Events.Invariant.{IsValid}
use health_go.StatusUpdater.{StatusUpdater, World}
use health_go.StatusUpdater.Steps.{Phase, idle, begin}
use health_go.StatusUpdater.Steps.Coherent.{
  IsCoherent, IsCoherent-kept, Kept, advance-Kept, begin-IsCoherent,
}
use health_go.StatusUpdater.Steps.Interleaving.{
  Running, Step, begun, advanced, received, Reach, start, later, with_check,
}

-- Every registered check fits its update and the tracker, which is valid and holds events for no other name.
pub record IsOrderly (known : String → Bool) (s : Running) : Type 0 where
  pub valid : IsValid s.world.tracker
  pub coherent :
      (name : String)
      → known name ≡ true
      → IsCoherent name (s.phase name) (s.updater name) s.world.tracker
  pub absent : (name : String) → known name ≡ false → get name s.world.tracker.event_ids ≡ none

module _ (known : String → Bool) where
  with_check-IsOrderly :
      (name : String) (s : Running) (x : Phase × StatusUpdater × World)
      → known name ≡ true
      → IsOrderly known s
      → Kept name s.world x
      → IsOrderly known (with_check name s x)
  with_check-IsOrderly name s x registered o k = record {
    valid = k.valid;
    coherent = λ j here. elim (Bool-cases (name == j)) [
      | inl same ↦ rw same (rw ((eq_iff name j).0 same) at k.own)
      | inr other ↦
          rw other
            (IsCoherent-kept j s.world.tracker x.2.tracker (k.others j other) (o.coherent j here))
    ];
    absent = λ j missing. k.others j (ground (arith, eq_iff name j)) ∙ o.absent j missing;
  }

  Step-IsOrderly : {s t : Running} → Step known s t → IsOrderly known s → IsOrderly known t
  Step-IsOrderly {s} (begun name status err quiet registered free) o =
      let c : IsCoherent name idle (s.updater name) s.world.tracker =
        rw free at (o.coherent name registered) in
      let (p, u) = begin status err quiet (s.updater name) in
      with_check-IsOrderly name s (p, u, s.world) registered o
        (record {
          own = begin-IsCoherent name status err quiet (s.updater name) s.world.tracker c;
          valid = o.valid;
          others = λ j other. refl;
        })
  Step-IsOrderly {s} (advanced name env registered fed) o =
      with_check-IsOrderly name s _ registered o (
        advance-Kept name env (s.phase name) (s.updater name) s.world fed o.valid
          (o.coherent name registered))
  Step-IsOrderly (received n) o = record {
    valid = o.valid;
    coherent = o.coherent;
    absent = o.absent;
  }

  pub Reach-IsOrderly : {s t : Running} → IsOrderly known s → Reach known s t → IsOrderly known t
  Reach-IsOrderly o start = o
  Reach-IsOrderly o (later r st) = Step-IsOrderly st (Reach-IsOrderly o r)
