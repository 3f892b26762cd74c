-- ===== src/StatusUpdater/Steps/Alone.antt =====
-- status.go: some steps of one update, while the others stand still.
use mathlib.Core.Path.{fun_ext, subst}
use health_go.Base.{
  String, Bool, true, false, ℕ, zero, suc, ◌≡◌, refl, ◌∙◌, ap, ◌==◌, eq_refl, inl, inr, Bool-cases,
  eq_iff,
}
use health_go.Events.Uuid.{IsUuid}
use health_go.StatusUpdater.{Env}
use health_go.StatusUpdater.Steps.{advance}
use health_go.StatusUpdater.Steps.Sequential.{State, steps}
use health_go.StatusUpdater.Steps.Interleaving.{
  Running, advanced, Reach, start, later, at, with_check, after_step,
}

pub at-here : {A : Type 0} (f : String → A) (k : String) (a : A) → at f k a k ≡ a
at-here f k a = rw eq_refl refl

pub at-other :
    {A : Type 0} (f : String → A) (k j : String) (a : A) → (k == j) ≡ false → at f k a j ≡ f j
at-other f k j a other = rw other refl

at-own : {A : Type 0} (f : String → A) (k : String) → at f k (f k) ≡ f
at-own f k = fun_ext (λ j. elim (Bool-cases (k == j)) [
  | inl same ↦ rw same (ap f ((eq_iff k j).0 same))
  | inr other ↦ rw other refl
])

at-again : {A : Type 0} (f : String → A) (k : String) (a b : A) → at (at f k a) k b ≡ at f k b
at-again f k a b =
    fun_ext
      (λ j. elim (Bool-cases (k == j)) [ inl same ↦ rw same refl | inr other ↦ rw other refl ])

-- how far one check is, with what all share
abbrev pub state_of : String → Running → State
state_of x s = (s.phase x, s.updater x, s.world)

pub state_of-here : (x : String) (s : Running) (y : State) → state_of x (with_check x s y) ≡ y
state_of-here x s y i = (at-here s.phase x y.0 i, at-here s.updater x y.1 i, y.2)

pub state_of-other :
    (x j : String) (s : Running) (y : State)
    → (x == j) ≡ false
    → state_of j (with_check x s y) ≡ (s.phase j, s.updater j, y.2)
state_of-other x j s y other i =
    (at-other s.phase x j y.0 other i, at-other s.updater x j y.1 other i, y.2)

with_check-own : (x : String) (s : Running) → with_check x s (state_of x s) ≡ s
with_check-own x s i = record {
  updater = at-own s.updater x i;
  phase = at-own s.phase x i;
  world = s.world;
}

with_check-again :
    (x : String) (s : Running) (y z : State) → with_check x (with_check x s y) z ≡ with_check x s z
with_check-again x s y z i = record {
  updater = at-again s.updater x y.1 z.1 i;
  phase = at-again s.phase x y.0 z.0 i;
  world = z.2;
}

module _ (known : String → Bool) (x : String) (env : Env) (here : known x ≡ true)
    (fed : IsUuid env.uuid) where
  pub alone-Reach :
      (n : ℕ) (s : Running) → Reach known s (with_check x s (steps n env (state_of x s)))
  unfolding steps
  alone-Reach zero s = rw (with_check-own x s) start
  alone-Reach (suc n) s =
      let y = steps n env (state_of x s) in
      let r = later (alone-Reach n s) (advanced x env here fed) in
      let e : after_step x env (with_check x s y) ≡ with_check x s (advance env y.0 y.1 y.2) =
        with_check-again x s y _
        ∙ ap (λ (z : State). with_check x s (advance env z.0 z.1 z.2)) (state_of-here x s y) in
      subst (Reach known s) e r

  pub alone-to :
      (n : ℕ) (s : Running) {y : State}
      → steps n env (state_of x s) ≡ y
      → Reach known s (with_check x s y)
  alone-to n s e = subst (λ (z : State). Reach known s (with_check x s z)) e (alone-Reach n s)
