-- ===== src/Check/Loop/Progress.antt =====
-- check.go: the loop goes on until it sees that its channel is closed, and then ends.
use health_go.Base.{List, [], ◌∷◌, ℕ, suc, ◌+◌, ◌*◌, ◌≤◌, ◌≡◌, arith, Bool}
use health_go.Base.Int.{ℤ, pos_part}
use health_go.Base.Lists.{All, length}
use health_go.Check.{jitter}
use health_go.Check.Loop.{Behaviour, Run, run_once, Wakeup, due, closed, loop, run_check_with_chan}
use health_go.Check.Loop.Spacing.{run_once-bounds}

-- the timer fires, at most so late
abbrev pub Prompt : ℕ → Wakeup → Type 0
Prompt slack (due delay late b) = delay ≤ slack
Prompt slack closed = ⊥

-- Runs, the latest first: the first one begins at its time, and each later one by its turn after a base
-- time, an interval before it.
abbrev pub OnTime : ℕ → ℕ → ℕ → ℕ → List Run → Type 0
OnTime first base interval slack [] = ⊥
OnTime first base interval slack (r ∷ []) = r.started ≡ first
OnTime first base interval slack (r ∷ q ∷ runs) =
    (r.started + interval ≤ base + suc (length runs) * (interval + slack))
    × OnTime first base interval slack (q ∷ runs)

module _ (interval timeout : ℕ) where
  module _ (slack : ℕ) where
    loop-length :
        (ws : List Wakeup) (next : ℕ) (runs : List Run)
        → All (Prompt slack) ws
        → length (loop interval timeout next ws runs) ≡ length ws + length runs
    unfolding loop
    loop-length [] next runs prompt = omega arith
    loop-length (due delay late b ∷ ws) next runs prompt = omega (
      arith,
      loop-length ws (next + delay + interval) (run_once (next + delay) timeout late b ∷ runs)
          prompt.1,
    )
    loop-length (closed ∷ ws) next runs prompt = absurd prompt.0

    loop-OnTime :
        (first base : ℕ) (ws : List Wakeup) (next : ℕ) (r : Run) (runs : List Run)
        → All (Prompt slack) ws
        → next ≤ base + length runs * (interval + slack)
        → OnTime first base interval slack (r ∷ runs)
        → OnTime first base interval slack (loop interval timeout next ws (r ∷ runs))
    unfolding loop
    loop-OnTime first base [] next r runs prompt soon begun = begun
    loop-OnTime first base (due delay late b ∷ ws) next r runs prompt soon begun =
        let now = next + delay in
        let same = (run_once-bounds now timeout late b).0 in
        let step : now + interval ≤ base + suc (length runs) * (interval + slack) =
          omega (arith, prompt.0, soon) in
        loop-OnTime first base ws (now + interval) (run_once now timeout late b) (r ∷ runs) prompt.1
          step (omega (arith, same, step), begun)
    loop-OnTime first base (closed ∷ ws) next r runs prompt soon begun = absurd prompt.0

module _ (interval timeout : ℤ) (random begin : ℕ) (late : Bool) (b : Behaviour)
    (ws : List Wakeup) where
  -- While the channel is open and no timer is later than some slack, the first run begins at the
  -- time that the loop begins, without the jitter, and with each wakeup of the loop there is another: the k-th
  -- run after the first begins an interval or more before the jitter and k times the interval with the
  -- slack have passed. This holds however long the runs take, and also if they hang.
  pub run_check_with_chan-progress :
      (slack : ℕ)
      → All (Prompt slack) ws
      → let runs = run_check_with_chan interval timeout random begin late b ws in
        (length runs ≡ suc (length ws))
        × OnTime begin (begin + jitter random interval) (pos_part interval) slack runs
  unfolding run_check_with_chan
  run_check_with_chan-progress slack prompt = (
    omega (
      arith,
      loop-length (pos_part interval) (pos_part timeout) slack ws (begin + jitter random interval)
          (run_once begin (pos_part timeout) late b ∷ []) prompt,
    ),
    loop-OnTime (pos_part interval) (pos_part timeout) slack begin (begin + jitter random interval)
        ws (begin + jitter random interval) (run_once begin (pos_part timeout) late b) [] prompt
        (omega arith) (run_once-bounds begin (pos_part timeout) late b).0,
  )
