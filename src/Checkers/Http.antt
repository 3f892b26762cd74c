-- ===== src/Checkers/Http.antt =====
-- checks/http/check.go: a GET whose status must be below 500. The client is `net/http`.
pub mod Kept
use health_go.Base.{String, [], ◌∷◌, ℕ, ltb}
use health_go.Base.Int.{ℤ, pos, cmp_or}
use health_go.Check.{CheckResponse}
use health_go.Checkers.{Reply, Trace, Body, succeed, call, finally, demand, respond}

pub record Config : Type 0 where
  pub url : String
  pub request_timeout : ℤ

abbrev pub default_request_timeout : ℤ
default_request_timeout = pos 5000000000

-- `send` returns the status code; its timeout is that of the context of the request
pub data Call : Type 0 where
  new_request : String → Call
  send : ℤ → Call
  close_body : Call

abbrev pub Log : Type 0
Log = Trace Call ℕ

module _ (answer : Log → Call → Reply ℕ) where
  unfoldable pub check_body : Config → Body Call ℕ
  unfolding call finally demand succeed
  check_body c =
      call answer (new_request c.url) "creating the request for the health check failed" (λ _.
        call answer (send c.request_timeout) "making the request for the health check failed"
          (λ status_code.
            finally answer close_body (
              demand (ltb status_code 500) "remote service is not available at the moment"
                succeed)))

  unfoldable pub check : Config → CheckResponse × Log
  unfolding check_body
  check c =
      let (error, trace) =
        check_body (record c { request_timeout = cmp_or c.request_timeout default_request_timeout })
          [] in
      (respond error, trace)
