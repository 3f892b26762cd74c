-- ===== src/StatusUpdater/Steps/Sequential.antt =====
-- status.go, update: the steps of one update with no other step between them.
use health_go.Base.{Bool, ℕ, zero, suc, ◌≤◌, ◌≡◌, refl, arith, inl, inr, Bool-cases}
use health_go.Base.Int.{ℤ, leb_ℤ}
use health_go.Types.{Status, passing, warning, critical, timeout, Error}
use health_go.StatusUpdater.{
  StatusUpdater, World, Env, update, update_failing, update_passing, cross, count_failure,
  count_success, notify_change, send_notification, release_event,
}
use health_go.StatusUpdater.Steps.{Phase, idle, reporting, begin, advance, notifies, counted, acted}

abbrev pub State : Type 0
State = Phase × StatusUpdater × World

-- n steps
unfoldable pub steps : ℕ → Env → State → State
steps zero env x = x
steps (suc n) env x = let (p, s, w) = steps n env x in advance env p s w

-- the state after the handler of the actions, from a result that has reached its threshold
abbrev crossed : Env → Status → Error → Bool → StatusUpdater → World → State
crossed env status err quiet s w =
    let (event_id, s', w') = cross env status err quiet s w in (acted status event_id, s', w')

-- The steps lead there, by way of the notification or past it.
steps-cross :
    (env : Env) (status : Status) (err : Error) (quiet : Bool) (s : StatusUpdater) (w : World)
    → (n : ℕ) × (n ≤ 5)
      × (steps n env (reporting status err (notifies status quiet s), s, w)
          ≡ crossed env status err quiet s w)
unfolding steps advance cross notify_change send_notification
steps-cross env status err quiet s w = elim (Bool-cases (notifies status quiet s)) [
  | inl told ↦ (5, omega arith, rw told refl)
  | inr silent ↦ (3, omega arith, rw silent refl)
]

-- the phase and the updater lead in at most n steps to the end of the update, with this updater and world
abbrev pub Ends : ℕ → Env → Phase × StatusUpdater → World → StatusUpdater × World → Type 0
Ends limit env (p, s) w r = (n : ℕ) × (n ≤ limit) × (steps n env (p, s, w) ≡ (idle, r.0, r.1))

failing-Ends :
    (env : Env) (threshold : ℤ) (status : Status) (err : Error) (quiet : Bool) (s : StatusUpdater)
    (w : World)
    → acted status ≡ (λ event_id. idle)
    → let s' = count_failure s in
      Ends 6 env
        (counted threshold s'.failures status err quiet s')
        w
        (update_failing threshold env status err quiet s w)
unfolding steps update_failing
failing-Ends env threshold status err quiet s w ends =
    let s' = count_failure s in
    let (n, few, e) = steps-cross env status err quiet s' w in
    elim (Bool-cases (leb_ℤ threshold s'.failures)) [
      | inl reached ↦ (n, omega arith, rw (reached, e, ends) refl)
      | inr below ↦ (0, omega arith, rw below refl)
    ]

passing-Ends :
    (env : Env) (err : Error) (quiet : Bool) (s : StatusUpdater) (w : World)
    → let s' = count_success s in
      Ends 6 env
        (counted s.successes_before_passing s'.successes passing err quiet s')
        w
        (update_passing env err quiet s w)
unfolding steps update_passing advance release_event
passing-Ends env err quiet s w =
    let s' = count_success s in
    let (n, few, e) = steps-cross env passing err quiet s' w in
    elim (Bool-cases (leb_ℤ s.successes_before_passing s'.successes)) [
      | inl reached ↦ (suc n, omega arith, rw (reached, e) refl)
      | inr below ↦ (0, omega arith, rw below refl)
    ]

-- The steps of an update, with no step of another check between them, end after at most six more, and do what
-- `update` does.
pub update-steps :
    (env : Env) (status : Status) (err : Error) (quiet : Bool) (s : StatusUpdater) (w : World)
    → Ends 6 env (begin status err quiet s) w (update env status err quiet s w)
unfolding begin update steps
update-steps env passing err quiet s w = passing-Ends env err quiet s w
update-steps env timeout err quiet s w =
    failing-Ends env s.failures_before_critical timeout err quiet s w refl
update-steps env warning err quiet s w =
    failing-Ends env s.failures_before_warning warning err quiet s w refl
update-steps env critical err quiet s w =
    failing-Ends env s.failures_before_critical critical err quiet s w refl
update-steps env _ err quiet s w = (0, omega arith, refl)
