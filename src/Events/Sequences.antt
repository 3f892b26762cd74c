-- ===== src/Events/Sequences.antt =====
-- events.go: the sequence numbers of an event count up from 1 for as long as a check holds the event.
use health_go.Base.{
  String, false, List, [], ◌∷◌, some, ◌≡◌, refl, ◌==◌, arith, eq_iff, eq_refl, Bool-cases, inl, inr,
  ◌∙◌, Option-cases, get_or, ℕ, zero, suc, ◌+◌, ◌≤◌, if◌then◌else◌,
}
use health_go.Base.Int.{ℤ, pos, inc, max_int}
use health_go.Base.Lists.{All, length}
use health_go.Base.GoMap.{get, get-put, get-delete, any_value_of_get}
use health_go.Types.{Status}
use health_go.Events.{Uuid, EventTracker, get_or_create_event_id, get_next_sequence, clear_sequence}
use health_go.Events.Invariant.{IsValid}
use health_go.Events.Operations.{
  Operation, report, number, release, apply, IsFed, apply-IsValid, recovers,
}
use health_go.Events.Stability.{apply-keeps}

-- the counter of an event, 0 before its first number
abbrev pub counter : String → EventTracker → ℤ
counter id t = get_or (get id t.sequences) (pos 0)

-- the numbers that operations hand out for one event, in order
unfoldable pub issued : String → List Operation → EventTracker → List ℤ
issued id [] t = []
issued id (number i ∷ ops) t =
    let rest = issued id ops (apply (number i) t) in
    if i == id then (get_next_sequence i t).0 ∷ rest else rest
issued id (op ∷ ops) t = issued id ops (apply op t)

-- n + 1, n + 2, and so on: k numbers
abbrev pub count_up : ℕ → ℕ → List ℤ
count_up n zero = []
count_up n (suc k) = pos (suc n) ∷ count_up (suc n) k

pub report-counter :
    (op : Uuid) (k : String) (status : Status) (t : EventTracker)
    → (apply (report op k status) t).sequences ≡ t.sequences
unfolding apply get_or_create_event_id
report-counter op k status t = elim (Option-cases (get k t.event_ids)) [
  | inl e ↦ ground arith
  | inr e ↦ ground (arith, e.1)
]

number-counter :
    (i id : String) (t : EventTracker)
    → (id == "") ≡ false
    → counter id (apply (number i) t) ≡ (if i == id then inc (counter id t) else counter id t)
unfolding apply get_next_sequence
number-counter i id t named =
    ground
      (arith, get-put id i (inc (counter i t)) t.sequences, eq_iff i id, eq_iff i "", eq_iff id "")

pub number-result :
    (id : String) (t : EventTracker)
    → (id == "") ≡ false
    → (get_next_sequence id t).0 ≡ inc (counter id t)
unfolding get_next_sequence
number-result id t named = ground arith

-- `ClearSequence` does nothing to the counter of an event that a check holds.
release-counter :
    (name i id : String) (t : EventTracker)
    → get name t.event_ids ≡ some id
    → counter id (apply (release i) t) ≡ counter id t
unfolding apply clear_sequence
release-counter name i id t held = elim (Bool-cases (i == id)) [
  | inl e ↦ ground (
    arith,
    eq_iff i id,
    any_value_of_get (λ (j : String). j == i) name id t.event_ids held
        (ground (arith, eq_refl i, eq_iff i id)),
  )
  | inr e ↦ ground (arith, get-delete id i t.sequences)
]

inc_below : (n : ℕ) → suc n ≤ max_int → inc (pos n) ≡ pos (suc n)
inc_below n h = ground arith

module _ (name id : String) where
  -- While a check of a valid tracker holds an event and does not report healthy, the numbers that
  -- operations hand out for the event go on from its counter one by one, as long as they stay below
  -- 2^63: none is left out and none is given twice. UUIDs have sixteen bytes.
  pub issued-count_up :
      (ops : List Operation) (n : ℕ) {t : EventTracker}
      → IsValid t
      → All IsFed ops
      → All (λ op. recovers name op ≡ false) ops
      → get name t.event_ids ≡ some id
      → counter id t ≡ pos n
      → n + length (issued id ops t) ≤ max_int
      → issued id ops t ≡ count_up n (length (issued id ops t))
  unfolding issued
  issued-count_up [] n v fed others held c fits = refl
  issued-count_up (report uuid k status ∷ ops) n {t} v fed others held c fits =
      issued-count_up ops n (apply-IsValid (report uuid k status) fed.0 v) fed.1 others.1
        (apply-keeps name id (report uuid k status) v others.0 held)
        (rw (report-counter uuid k status t) c) fits
  issued-count_up (release i ∷ ops) n {t} v fed others held c fits =
      issued-count_up ops n (apply-IsValid (release i) fed.0 v) fed.1 others.1
        (apply-keeps name id (release i) v others.0 held) (release-counter name i id t held ∙ c)
        fits
  issued-count_up (number i ∷ ops) n {t} v fed others held c fits =
      let named = v.ids_nonempty name id held in
      let next_v = apply-IsValid (number i) tt v in
      let next_held = apply-keeps name id (number i) v refl held in
      elim (Bool-cases (i == id)) [
        | inl e ↦
            let room : n + suc (length (issued id ops (apply (number i) t))) ≤ max_int =
              rw e at fits in
            let bumped : inc (counter id t) ≡ pos (suc n) = rw c (inc_below n (omega arith)) in
            let first : (get_next_sequence i t).0 ≡ pos (suc n) =
              rw ((eq_iff i id).0 e) (number-result id t named ∙ bumped) in
            let step : counter id (apply (number i) t) ≡ pos (suc n) =
              number-counter i id t named ∙ rw e bumped in
            let rest =
              issued-count_up ops (suc n) next_v fed.1 others.1 next_held step (omega arith) in
            rw e (cc (first, rest))
        | inr e ↦
            let step : counter id (apply (number i) t) ≡ pos n =
              number-counter i id t named ∙ rw e c in
            rw e (issued-count_up ops n next_v fed.1 others.1 next_held step (rw e at fits))
      ]
