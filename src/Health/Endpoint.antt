-- ===== src/Health/Endpoint.antt =====
-- health.go and status.go: the answer of Status with its system metrics, and the response of HandlerFunc.
pub mod Response
pub mod Unavailable
use health_go.Base.{
  String, Bool, true, false, Option, none, some, List, [], ◌∷◌, ℕ, ◌⊎◌, inl, inr, if◌then◌else◌,
}
use health_go.Base.Optional.{◌>>=◌}
use health_go.Base.Int.{ℤ, wrap_int64}
use health_go.Base.Text.{◌<>◌}
use health_go.Base.GoMap.{GoMap}
use health_go.Types.{Status, Time}
use health_go.Health.{http_code}
use health_go.Health.Container.{Component, Container}
use health_go.Health.Service.{status}

pub record System : Type 0 where
  pub version : String
  pub goroutines_count : ℤ
  pub total_alloc_bytes : ℤ
  pub heap_objects_count : ℤ
  pub alloc_bytes : ℤ

-- what the package runtime reports: the version, the goroutines, and three fields of `MemStats`,
-- which are `uint64`
pub record Runtime : Type 0 where
  pub go_version : String
  pub num_goroutine : ℤ
  pub total_alloc : ℕ
  pub heap_objects : ℕ
  pub alloc : ℕ

unfoldable pub new_system_metrics : Runtime → System
new_system_metrics r = record {
  version = r.go_version;
  goroutines_count = r.num_goroutine;
  total_alloc_bytes = wrap_int64 r.total_alloc;
  heap_objects_count = wrap_int64 r.heap_objects;
  alloc_bytes = wrap_int64 r.alloc;
}

pub record Check : Type 0 where
  pub status : Status
  pub timestamp : Time
  pub failures : GoMap String
  pub system : Option System
  pub component : Component

abbrev pub new_check : Time → Component → Status → Option System → GoMap String → Check
new_check now c s system failures = record {
  status = s;
  timestamp = now;
  failures = failures;
  system = system;
  component = c;
}

module _ {S : Type 0} (runtime : Runtime) (now : Time) (h : Container S) where
  -- `Status`, with its answer
  unfoldable pub check_of : Option Check
  unfolding new_system_metrics
  check_of = do
    a ← status h.health
    some (
        new_check now h.component a.0
          (if h.health.system_info_enabled then some (new_system_metrics runtime) else none) a.1)

-- `B` are bytes; `http.Error` writes the error of an encoding as a line of text
pub record HttpResponse (B : Type 0) : Type 0 where
  pub content_type : String
  pub code : ℕ
  pub body : B ⊎ String

-- the part of `HandlerFunc` after `Status`; `marshal` is `json.Marshal`
unfoldable pub respond : {B : Type 0} → (Check → B ⊎ String) → Check → HttpResponse B
respond marshal c = elim (marshal c) [
  | inr e ↦ record { content_type = "application/json"; code = 500; body = inr (e <> "\n") }
  | inl bytes ↦ record {
    content_type = "application/json";
    code = http_code c.status;
    body = inl bytes;
  }
]

unfoldable pub handler_func :
    {S B : Type 0} → (Check → B ⊎ String) → Runtime → Time → Container S → Option (HttpResponse B)
unfolding check_of respond
handler_func marshal runtime now h = do c ← check_of runtime now h; some (respond marshal c)
