-- ===== src/Check/Loop/Spacing.antt =====
-- check.go: how far the runs of a loop are apart, and how many can be in flight at once.
use health_go.Base.{
  Bool, List, [], ◌∷◌, ℕ, suc, ◌+◌, ◌*◌, ◌++◌, ◌∙◌, ap, sym, ◌≤◌, ◌<◌, ◌≡◌, refl, arith, ltb, ◌⊎◌,
  inl, inr, Bool-cases,
}
use mathlib.Core.List.{append_assoc}
use health_go.Base.Lists.{All}
use health_go.Base.Int.{ℤ, pos_part}
use health_go.Check.{jitter}
use health_go.Check.Loop.{
  Behaviour, responds, hangs, Run, run_once, Wakeup, due, closed, loop, run_check_with_chan,
  in_flight,
}

-- A run has its outcome by its deadline, and not before it began.
pub run_once-bounds :
    (started timeout : ℕ) (late : Bool) (b : Behaviour)
    → let r = run_once started timeout late b in
      (r.started ≡ started) × (started ≤ r.ended) × (r.ended ≤ started + timeout)
unfolding run_once
run_once-bounds started timeout late hangs = (refl, omega arith, omega arith)
run_once-bounds started timeout late (responds after res) = ground arith

-- Runs, the latest first, that begin an interval apart and before a bound, and end by their deadlines.
abbrev pub Spaced : ℕ → ℕ → ℕ → List Run → Type 0
Spaced interval timeout bound [] = Unit
Spaced interval timeout bound (r ∷ rs) =
    (r.started + interval ≤ bound)
    × (r.ended ≤ r.started + timeout)
    × Spaced interval timeout r.started rs

-- the runs after the first one
abbrev pub later_runs : ℤ → ℤ → ℕ → ℕ → List Wakeup → List Run
later_runs interval timeout random begin ws =
    loop (pos_part interval) (pos_part timeout) (begin + jitter random interval) ws []

module _ (interval timeout : ℕ) where
  loop-append :
      (ws : List Wakeup) (next : ℕ) (rs : List Run)
      → loop interval timeout next ws rs ≡ loop interval timeout next ws [] ++ rs
  unfolding loop
  loop-append [] next rs = refl
  loop-append (closed ∷ ws) next rs = refl
  loop-append (due delay late b ∷ ws) next rs =
      let now = next + delay in
      let r = run_once now timeout late b in
      loop-append ws (now + interval) (r ∷ rs)
      ∙ sym (append_assoc (loop interval timeout (now + interval) ws []) (r ∷ []) rs)
      ∙ ap (λ xs. xs ++ rs) (sym (loop-append ws (now + interval) (r ∷ [])))

  -- how many runs are in flight, if any, against the bound
  crowded :
      (now bound : ℕ) (rs : List Run)
      → Spaced interval timeout bound rs
      → (in_flight now rs ≡ 0)
        ⊎ ((m : ℕ) × (in_flight now rs ≡ suc m) × (now + m * interval + interval < bound + timeout))
  unfolding in_flight
  crowded now bound [] spaced = inl refl
  crowded now bound (r ∷ rs) spaced = elim (crowded now r.started rs spaced.2) [
    | inl none_left ↦ elim (Bool-cases (ltb now r.ended)) [
      | inl e ↦ inr (0, ground arith, ground arith)
      | inr e ↦ inl (ground arith)
    ]
    | inr some_left ↦
        let (m, count, room) = some_left in
        elim (Bool-cases (ltb now r.ended)) [
          | inl e ↦ inr (suc m, ground arith, omega (arith, spaced.0, room))
          | inr e ↦ inr (m, ground arith, ground arith)
        ]
  ]

  -- a bound that is greater, and the least one
  Spaced-mono :
      {bound more : ℕ} (rs : List Run)
      → bound ≤ more
      → Spaced interval timeout bound rs
      → Spaced interval timeout more rs
  Spaced-mono [] le spaced = tt
  Spaced-mono (r ∷ rs) le spaced = (omega (arith, spaced.0, le), spaced.1, spaced.2)

  loop-Spaced :
      (ws : List Wakeup) (next : ℕ) (rs : List Run)
      → Spaced interval timeout next rs
      → (bound : ℕ) × Spaced interval timeout bound (loop interval timeout next ws rs)
  unfolding loop
  loop-Spaced [] next rs spaced = (next, spaced)
  loop-Spaced (closed ∷ ws) next rs spaced = (next, spaced)
  loop-Spaced (due delay late b ∷ ws) next rs spaced =
      let now = next + delay in
      let (same, _, by_deadline) = run_once-bounds now timeout late b in
      loop-Spaced ws (now + interval) (run_once now timeout late b ∷ rs) (
        omega (arith, same),
        omega (arith, same, by_deadline),
        Spaced-mono rs (omega (arith, same)) spaced,
      )

  -- At an instant after the latest start, the runs in flight but one began within one timeout.
  Spaced-in_flight :
      (now bound : ℕ) (rs : List Run)
      → 0 < timeout
      → Spaced interval timeout bound rs
      → All (λ r. r.started ≤ now) rs
      → (m : ℕ) × (in_flight now rs ≤ suc m) × (m * interval < timeout)
  unfolding in_flight
  Spaced-in_flight now bound [] some_time spaced begun = (0, omega arith, omega (arith, some_time))
  Spaced-in_flight now bound (r ∷ rs) some_time spaced begun =
      elim (crowded now (r.started + interval) (r ∷ rs) (omega arith, spaced.1, spaced.2)) [
        | inl nothing ↦ (0, omega (arith, nothing), omega (arith, some_time))
        | inr busy ↦
            let (m, count, room) = busy in (m, omega (arith, count), omega (arith, room, begun.0))
      ]

All-init : (P : Run → Type 0) (rs : List Run) (r : Run) → All P (rs ++ r ∷ []) → All P rs
All-init P [] r all = tt
All-init P (q ∷ rs) r all = (all.0, All-init P rs r all.1)

in_flight-append :
    (now : ℕ) (rs : List Run) (r : Run) → in_flight now (rs ++ r ∷ []) ≤ suc (in_flight now rs)
unfolding in_flight
in_flight-append now [] r = ground arith
in_flight-append now (q ∷ rs) r = ground (arith, in_flight-append now rs r)

module _ (interval timeout : ℤ) (random begin : ℕ) (late : Bool) (b : Behaviour)
    (ws : List Wakeup) where
  -- The runs of a loop are the first one, and later ones which begin at least an interval apart;
  -- each has its outcome by its deadline.
  pub run_check_with_chan-Spaced :
      let runs = run_check_with_chan interval timeout random begin late b ws in
      let first = run_once begin (pos_part timeout) late b in
      (later : List Run) × (bound : ℕ) × (runs ≡ later ++ first ∷ [])
      × Spaced (pos_part interval) (pos_part timeout) bound later
      × (first.ended ≤ begin + pos_part timeout)
  unfolding run_check_with_chan
  run_check_with_chan-Spaced =
      let (bound, spaced) =
        loop-Spaced (pos_part interval) (pos_part timeout) ws (begin + jitter random interval) []
          tt in
      (
        later_runs interval timeout random begin ws,
        bound,
        loop-append (pos_part interval) (pos_part timeout) ws (begin + jitter random interval) _,
        spaced,
        (run_once-bounds begin (pos_part timeout) late b).2,
      )

  -- However long the runs take, at most two more are in flight at once than begin, an interval
  -- apart, within one timeout: with a timeout of at most the interval, two.
  pub in_flight-bounded :
      (now : ℕ)
      → 0 < pos_part timeout
      → All (λ r. r.started ≤ now) (run_check_with_chan interval timeout random begin late b ws)
      → (m : ℕ) × (in_flight now (run_check_with_chan interval timeout random begin late b ws)
          ≤ suc (suc m))
        × (m * pos_part interval < pos_part timeout)
  in_flight-bounded now some_time begun =
      let (later, bound, split, spaced, _) = run_check_with_chan-Spaced in
      let (m, count, room) =
        Spaced-in_flight (pos_part interval) (pos_part timeout) now bound later some_time spaced
          (All-init _ later _ (rw split at begun)) in
      (
        m,
        rw split (
            omega (
              arith,
              count,
              in_flight-append now later (run_once begin (pos_part timeout) late b),
            )),
        room,
      )
