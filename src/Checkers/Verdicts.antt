-- ===== src/Checkers/Verdicts.antt =====
-- checks/*/check.go: a check is sound if it closes what it opened, the last one first, and its
-- error tells whether one of the answers was a failure.
use health_go.Base.{Bool, not, some, [], ◌≡◌, arith, is_some}
use health_go.Check.{CheckResponse}
use health_go.Checkers.{Reply, Trace, Body, respond}
use health_go.Checkers.Resources.{Role, stack, Releases}
use health_go.Checkers.Failures.{all_fine, Honest}

module _ {C V : Type 0} (role : C → Role) (fine : C → Reply V → Bool) where
  pub record IsSound (result : CheckResponse × Trace C V) : Type 0 where
    pub closed : stack role result.1 ≡ some []
    pub verdict : not (is_some result.0.error) ≡ all_fine fine result.1

  pub body-IsSound :
      (body : Body C V)
      → Releases role body
      → Honest fine body
      → IsSound (respond (body []).0, (body []).1)
  unfolding stack
  body-IsSound body releases honest = record {
    closed = releases.kept [];
    verdict = ground (arith, honest.says []);
  }
