-- ===== src/Events/Stability.antt =====
-- events.go: the event ID of a check stays from its first failure to its recovery.
use health_go.Base.{String, false, List, [], ◌∷◌, some, ◌≡◌, arith, eq_iff, Bool-cases, inl, inr}
use health_go.Base.Lists.{All}
use health_go.Base.GoMap.{get}
use health_go.Types.{passing, eq_status}
use health_go.Events.{EventTracker, get_next_sequence, clear_sequence}
use health_go.Events.Invariant.{IsValid}
use health_go.Events.Reports.{failure_id, failure_attaches, recovery_detaches}
use health_go.Events.Operations.{
  Operation, report, number, release, apply, run, IsFed, apply-IsValid, recovers,
}

module _ (name id : String) where
  pub apply-keeps :
      (op : Operation) {t : EventTracker}
      → IsValid t
      → recovers name op ≡ false
      → get name t.event_ids ≡ some id
      → get name (apply op t).event_ids ≡ some id
  unfolding apply get_next_sequence clear_sequence
  apply-keeps (report uuid k status) {t} v other held =
      elim (Bool-cases (eq_status status passing)) [
        | inl healthy ↦ ground (
          arith,
          (recovery_detaches uuid k status t healthy).1 name,
          eq_iff k name,
          eq_iff name k,
        )
        | inr failing ↦ ground (
          arith,
          failure_attaches uuid k status t failing name,
          failure_id uuid k status t v failing,
          eq_iff k name,
        )
      ]
  apply-keeps (number i) v other held = ground arith
  apply-keeps (release i) v other held = ground arith

  -- In a valid tracker no operations change the event ID that a check holds, as long as none of them
  -- reports this check healthy: not the reports of other checks, not the begin or end of maintenance,
  -- not the counters. UUIDs have sixteen bytes.
  pub event_id-stable :
      (ops : List Operation) {t : EventTracker}
      → IsValid t
      → All IsFed ops
      → All (λ op. recovers name op ≡ false) ops
      → get name t.event_ids ≡ some id
      → get name (run ops t).event_ids ≡ some id
  unfolding run
  event_id-stable [] v fed others held = held
  event_id-stable (op ∷ ops) v fed others held =
      event_id-stable ops (apply-IsValid op fed.0 v) fed.1 others.1 (apply-keeps op v others.0 held)
