-- ===== src/StatusUpdater/Incident.antt =====
-- status.go with events.go: one check among others. The other checks and the sender of the
-- library's user act on the shared world between the updates of the check.
use health_go.Base.{
  String, Bool, true, false, List, [], ◌∷◌, ℕ, suc, ◌≤◌, ◌<◌, some, ◌≡◌, refl, ◌∙◌, arith, ltb,
  ◌&&◌,
}
use health_go.Base.Int.{pos, inc, max_int}
use health_go.Base.Lists.{All}
use health_go.Base.GoMap.{get}
use health_go.Types.{Status, passing, warning, eq_status}
use health_go.Notifications.{Notifications}
use health_go.Actions.{Job, success, warn, failure, time_out}
use health_go.Events.{EventTracker}
use health_go.Events.Uuid.{IsUuid}
use health_go.Events.Invariant.{IsValid}
use health_go.Events.Operations.{Operation, run, IsFed, apply, apply-IsValid, run-IsValid, recovers}
use health_go.Events.Stability.{event_id-stable}
use health_go.StatusUpdater.{StatusUpdater, World, update, count_success}
use health_go.StatusUpdater.History.{Report, extend, kind, healthy}
use health_go.StatusUpdater.Tracking.{Touches, update-Touches}

-- an update of the check, or an operation of others on the tracker, with any change to the sender
-- and the jobs
pub data Step : Type 0 where
  own : Report → Step
  other : Operation → Notifications → List Job → Step

abbrev pub Pair : Type 0
Pair = StatusUpdater × World

unfoldable pub step : Step → Pair → Pair
step (own r) (s, w) = update r.env r.status r.error r.quiet s w
step (other op notifications jobs) (s, w) =
    (s, record { tracker = apply op w.tracker; notifications = notifications; jobs = jobs })

unfoldable pub steps : List Step → Pair → Pair
steps [] p = p
steps (x ∷ xs) p = steps xs (step x p)

-- the values of `uuid.New` are as documented, and only the check itself reports under its name
abbrev pub IsFair : String → Step → Type 0
IsFair name (own r) = IsUuid r.env.uuid
IsFair name (other op notifications jobs) = IsFed op × (recovers name op ≡ false)

-- no run of passing results of the check is as long as its threshold; `k` of them came before
abbrev pub short_runs : ℕ → ℕ → List Step → Bool
short_runs threshold k [] = true
short_runs threshold k (own r ∷ xs) =
    let k' = extend healthy (kind r.status) k in ltb k' threshold && short_runs threshold k' xs
short_runs threshold k (other op notifications jobs ∷ xs) = short_runs threshold k xs

-- the check is not healthy and holds an event; `k` passing results came last
pub record Pending (name id : String) (threshold k : ℕ) (p : Pair) : Type 0 where
  pub named : p.0.actions.check_name ≡ name
  pub to_pass : p.0.successes_before_passing ≡ pos threshold
  pub successes : p.0.successes ≡ pos k
  pub unhealthy : eq_status p.0.check.status passing ≡ false
  pub valid : IsValid p.1.tracker
  pub held : get name p.1.tracker.event_ids ≡ some id

-- an operation that is fed and is no recovery of the check
abbrev Harmless : String → Operation → Type 0
Harmless name op = IsFed op × (recovers name op ≡ false)

All-IsFed : (name : String) (ops : List Operation) → All (Harmless name) ops → All IsFed ops
All-IsFed name [] h = tt
All-IsFed name (op ∷ ops) h = (h.0.0, All-IsFed name ops h.1)

All-others :
    (name : String) (ops : List Operation)
    → All (Harmless name) ops
    → All (λ op. recovers name op ≡ false) ops
All-others name [] h = tt
All-others name (op ∷ ops) h = (h.0.1, All-others name ops h.1)

module _ (name id : String) {t u : EventTracker} (v : IsValid t)
    (held : get name t.event_ids ≡ some id) where
  Touches-IsValid : Touches (Harmless name) t u → IsValid u
  Touches-IsValid touches =
      rw touches.result (run-IsValid touches.operations (All-IsFed name _ touches.allowed) v)

  Touches-held : Touches (Harmless name) t u → get name u.event_ids ≡ some id
  Touches-held touches = rw touches.result (
      event_id-stable name id touches.operations v (All-IsFed name _ touches.allowed)
        (All-others name _ touches.allowed) held)

pub update-check_name :
    (r : Report) (status : Status) (s : StatusUpdater) (w : World)
    → (update r.env status r.error r.quiet s w).0.actions.check_name ≡ s.actions.check_name
unfolding update success warn failure time_out
update-check_name r passing s w = ground arith
update-check_name r _ s w = ground arith

failing-fields :
    (r : Report) (status : Status) (k : ℕ) (s : StatusUpdater) (w : World)
    → eq_status status passing ≡ false
    → eq_status s.check.status passing ≡ false
    → s.successes ≡ pos k
    → let s' = (update r.env status r.error r.quiet s w).0 in
      (s'.successes ≡ pos (extend healthy (kind status) k))
      × (s'.successes_before_passing ≡ s.successes_before_passing)
      × (eq_status s'.check.status passing ≡ false)
unfolding update
failing-fields r passing k s w failing unhealthy counted = cc
failing-fields r _ k s w failing unhealthy counted = ground arith

-- a passing result below its threshold is only counted
passing_below :
    (r : Report) (threshold k : ℕ) (s : StatusUpdater) (w : World)
    → s.successes_before_passing ≡ pos threshold
    → s.successes ≡ pos k
    → suc k < threshold
    → threshold ≤ max_int
    → (update r.env passing r.error r.quiet s w ≡ (count_success s, w))
      × (inc s.successes ≡ pos (suc k))
unfolding update count_success
passing_below r threshold k s w to_pass counted below fits = (ground arith, ground arith)

module _ (name id : String) (threshold : ℕ) (fits : threshold ≤ max_int) where
  -- a failing result, whether it reaches its threshold or not
  failing-Pending :
      (r : Report) (status : Status) (k : ℕ) {p : Pair}
      → IsUuid r.env.uuid
      → eq_status status passing ≡ false
      → Pending name id threshold k p
      → Pending name id threshold
          (extend healthy (kind status) k)
          (update r.env status r.error r.quiet p.0 p.1)
  failing-Pending r status k {p} u failing h =
      let fields = failing-fields r status k p.0 p.1 failing h.unhealthy h.successes in
      let touches =
        update-Touches (Harmless name) (λ i. (tt, refl)) (λ i. (tt, refl)) r.env status r.error
          r.quiet p.0 p.1 (u, ground arith) in
      record {
        named = update-check_name r status p.0 p.1 ∙ h.named;
        to_pass = fields.1 ∙ h.to_pass;
        successes = fields.0;
        unhealthy = fields.2;
        valid = Touches-IsValid name id h.valid h.held touches;
        held = Touches-held name id h.valid h.held touches;
      }

  own-Pending :
      (r : Report) (status : Status) (k : ℕ) {p : Pair}
      → IsUuid r.env.uuid
      → extend healthy (kind status) k < threshold
      → Pending name id threshold k p
      → Pending name id threshold
          (extend healthy (kind status) k)
          (update r.env status r.error r.quiet p.0 p.1)
  unfolding count_success
  own-Pending r passing k {p} u below h =
      let (same, counted) = passing_below r threshold k p.0 p.1 h.to_pass h.successes below fits in
      rw same (record {
        named = h.named;
        to_pass = h.to_pass;
        successes = counted;
        unhealthy = h.unhealthy;
        valid = h.valid;
        held = h.held;
      })
  own-Pending r warning k u below h = failing-Pending r warning k u refl h
  own-Pending r _ k u below h = failing-Pending r _ k u refl h

  -- Flapping. A check that is not healthy and holds an event ID stays unhealthy and keeps this ID
  -- through any interleaving of its own updates with operations of others on the tracker, as long as no
  -- run of its passing results reaches the threshold, counted on from those that came last. Others do
  -- not report the check healthy, and UUIDs have sixteen bytes. The tracker stays valid.
  pub steps-Pending :
      (xs : List Step) (k : ℕ) {p : Pair}
      → All (IsFair name) xs
      → short_runs threshold k xs ≡ true
      → Pending name id threshold k p
      → (eq_status (steps xs p).0.check.status passing ≡ false)
        × (get name (steps xs p).1.tracker.event_ids ≡ some id)
        × IsValid (steps xs p).1.tracker
  unfolding steps step apply run
  steps-Pending [] k fair short h = (h.unhealthy, h.held, h.valid)
  steps-Pending (own r ∷ xs) k {p} fair short h =
      let k' = extend healthy (kind r.status) k in
      let below : k' < threshold = ground arith in
      let rest : short_runs threshold k' xs ≡ true = ground arith in
      steps-Pending xs k' fair.1 rest (own-Pending r r.status k fair.0 below h)
  steps-Pending (other op notifications jobs ∷ xs) k {p} fair short h =
      steps-Pending xs k fair.1 short (record {
        named = h.named;
        to_pass = h.to_pass;
        successes = h.successes;
        unhealthy = h.unhealthy;
        valid = apply-IsValid op fair.0.0 h.valid;
        held = event_id-stable name id (op ∷ []) h.valid (fair.0.0, tt) (fair.0.1, tt) h.held;
      })
