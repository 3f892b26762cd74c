-- ===== src/Check/Pausing.antt =====
-- check.go, Start and Pause: how many loops run.
use health_go.Base.{
  Bool, true, false, Option, none, some, List, [], ◌∷◌, ◌<◌, ◌≡◌, refl, Bool-cases, inl, inr, arith,
  ◌&&◌,
}
use health_go.Check.{CheckRuntime, Loops, start, pause}

-- one loop that listens to the check's channel while it runs, none while it is paused
abbrev pub Tidy : Option CheckRuntime → Loops → Type 0
Tidy none loops = loops.running ≡ []
Tidy (some r) loops =
    (r.paused_chan < loops.next_chan)
    × (loops.running ≡ elim r.paused [ true ↦ [] | false ↦ r.paused_chan ∷ [] ])

pub data Command : Type 0 where
  suspend resume : Command

unfoldable pub obey : List Command → Option CheckRuntime × Loops → Option CheckRuntime × Loops
obey [] s = s
obey (suspend ∷ cs) (r, loops) = obey cs (pause r loops)
obey (resume ∷ cs) (r, loops) = obey cs (start r loops)

-- a check that runs is not started again before it is paused
abbrev pub disciplined : Bool → List Command → Bool
disciplined stopped [] = true
disciplined stopped (suspend ∷ cs) = disciplined true cs
disciplined stopped (resume ∷ cs) = stopped && disciplined false cs

pause-Tidy :
    (r : CheckRuntime) (loops : Loops)
    → Tidy (some r) loops
    → Tidy (pause (some r) loops).0 (pause (some r) loops).1
unfolding pause
pause-Tidy r loops tidy = ground arith

start-Tidy :
    (r : Option CheckRuntime) (loops : Loops)
    → loops.running ≡ []
    → Tidy (start r loops).0 (start r loops).1
unfolding start
start-Tidy r loops idle = ground arith

abbrev pub stopped : Option CheckRuntime → Bool
stopped none = true
stopped (some r) = r.paused

stopped-pause : (r : Option CheckRuntime) (loops : Loops) → stopped (pause r loops).0 ≡ true
unfolding pause
stopped-pause none loops = refl
stopped-pause (some r) loops = ground arith

idle_of_stopped :
    (r : Option CheckRuntime) (loops : Loops) → Tidy r loops → stopped r ≡ true → loops.running ≡ []
idle_of_stopped none loops tidy still = tidy
idle_of_stopped (some r) loops tidy still = ground arith

-- If a check is only started while it is new or paused, one loop runs while it is not paused and none
-- while it is, and this loop ends by the check's own channel, however often it is paused and started.
pub obey-Tidy :
    (cs : List Command) (r : Option CheckRuntime) (loops : Loops)
    → Tidy r loops
    → disciplined (stopped r) cs ≡ true
    → Tidy (obey cs (r, loops)).0 (obey cs (r, loops)).1
unfolding obey pause start
obey-Tidy [] r loops tidy ok = tidy
obey-Tidy (suspend ∷ cs) none loops tidy ok = obey-Tidy cs none loops tidy ok
obey-Tidy (suspend ∷ cs) (some r) loops tidy ok =
    obey-Tidy cs (pause (some r) loops).0 (pause (some r) loops).1 (pause-Tidy r loops tidy)
      (rw (stopped-pause (some r) loops) ok)
obey-Tidy (resume ∷ cs) r loops tidy ok = elim (Bool-cases (stopped r)) [
  | inl still ↦
      obey-Tidy cs (start r loops).0 (start r loops).1
        (start-Tidy r loops (idle_of_stopped r loops tidy still)) (ground arith)
  | inr runs ↦ cc
]

-- When a check whose one loop runs is started again and then paused, its first loop goes on, though
-- the check is marked as paused.
pub second_start-leaks :
    (r : CheckRuntime) (loops : Loops)
    → Tidy (some r) loops
    → r.paused ≡ false
    → let (r', loops') = obey (resume ∷ suspend ∷ []) (some r, loops) in
      (stopped r' ≡ true) × (loops'.running ≡ r.paused_chan ∷ [])
unfolding obey start pause
second_start-leaks r loops tidy runs = ground arith
