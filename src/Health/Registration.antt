-- ===== src/Health/Registration.antt =====
-- health.go, Register.
use health_go.Base.{
  eq_refl, String, false, Option, none, some, ◌≡◌, arith, ◌==◌, ◌⊎◌, if◌then◌else◌, is_some, ◌||◌,
}
use health_go.Base.Int.{ℤ, pos, ◌≤ℤ◌}
use health_go.Base.GoMap.{get, put, get-put}
use health_go.Types.{CheckState, minimum_interval, default_interval}
use health_go.StatusUpdater.{Env}
use health_go.Check.{CheckConfig, start}
use health_go.Health.{Health, register, register_interval, configure, create_updater}

-- No check runs more often than once in the minimum interval; an interval of at least the minimum is
-- kept, a shorter positive one is raised to the minimum, and one that is not positive is the default.
pub register_interval_cases :
    (interval : ℤ)
    → (minimum_interval ≤ℤ register_interval interval)
      × ((register_interval interval ≡ interval)
          ⊎ ((register_interval interval ≡ minimum_interval)
              × (pos 1 ≤ℤ interval)
              × (interval ≤ℤ minimum_interval))
          ⊎ ((register_interval interval ≡ default_interval) × (interval ≤ℤ pos 0)))
unfolding register_interval
register_interval_cases interval = ground arith

module _ (env : Env) (load : String → Option CheckState) (c : CheckConfig) (h : Health) where
  -- Register refuses exactly a check with no name or with a name that is taken, and a refusal changes nothing.
  pub register-refused :
      (is_some (register env load c h).1 ≡ (c.name == "" || is_some (get c.name h.checks)))
      × ((is_some (register env load c h).1 ≡ false) ⊎ ((register env load c h).0 ≡ h))
  unfolding register
  register-refused = ground arith

  -- the checks after a registration that was accepted
  put_checks :
      (register env load c h).1 ≡ none
      → (register env load c h).0.checks
        ≡ put c.name
            (configure c (create_updater env c (load c.name) h.world).0 (start c.runtime h.loops).0)
            h.checks
  unfolding register
  put_checks accepted = ground arith

  -- A check that is accepted is registered under its name, with its updater and its normal interval, and
  -- every other check stays as it was.
  pub register-accepted :
      (register env load c h).1 ≡ none
      → (get c.name (register env load c h).0.checks
          ≡ some (
              configure c
                (create_updater env c (load c.name) h.world).0
                (start c.runtime h.loops).0))
        × ((j : String)
            → get j (register env load c h).0.checks ≡ (
                if c.name == j
                then get c.name (register env load c h).0.checks
                else get j h.checks))
  register-accepted accepted = (
    rw (put_checks accepted) (rw (get-put, eq_refl)),
    λ j. rw (put_checks accepted) (rw (get-put, get-put, eq_refl)),
  )
