-- ===== src/Checkers/Cassandra.antt =====
-- checks/cassandra/check.go: a session is made and describes the keyspaces.
pub mod Kept
use health_go.Base.{String, Bool, not, ◌||◌, List, [], ◌∷◌, ◌==◌, ltb}
use health_go.Base.Lists.{length}
use health_go.Check.{CheckResponse}
use health_go.Checkers.{Reply, Trace, Body, succeed, call, finally, demand, respond}

pub record Config : Type 0 where
  pub hosts : List String
  pub keyspace : String

pub data Call : Type 0 where
  create_session : List String → String → Call
  exec : String → Call
  close_session : Call

abbrev pub Log : Type 0
Log = Trace Call Unit

-- `len(config.Hosts) < 1 || len(config.Keyspace) < 1`
abbrev pub incomplete : Config → Bool
incomplete c = ltb (length c.hosts) 1 || c.keyspace == ""

module _ (answer : Log → Call → Reply Unit) where
  unfoldable pub check_body : Config → Body Call Unit
  unfolding call finally demand succeed
  check_body c =
      demand (not (incomplete c))
        "keyspace name and hosts are required to initialize cassandra health check"
        (call answer (create_session c.hosts c.keyspace) "cassandra health check failed on connect"
          (λ _. finally answer close_session (
            call answer (exec "DESCRIBE KEYSPACES;") "cassandra health check failed on describe"
              (λ _. succeed))))

  unfoldable pub check : Config → CheckResponse × Log
  unfolding check_body
  check c = let (error, trace) = check_body c [] in (respond error, trace)
