-- ===== src/Checkers/Sql.antt =====
-- checks/mysql/check.go, checks/postgres/check.go, checks/pgx4/check.go, checks/pgx5/check.go: the
-- checks of SQL databases connect, ping and ask for the version. The clients are `database/sql`
-- with the driver of the database, or pgx.
pub mod Kept
use health_go.Base.{String, [], ◌∷◌}
use health_go.Base.Text.{◌<>◌}
use health_go.Check.{CheckResponse}
use health_go.Checkers.{Reply, Trace, Body, succeed, call, deferred, finally, respond}

-- `Config`, of each of these checks
pub record Config : Type 0 where
  pub dsn : String

-- `open_db` is `sql.Open` with the name of the driver, `connect` is `pgx.Connect`
pub data Call : Type 0 where
  open_db : String → String → Call
  connect : String → Call
  ping close_db close_rows : Call
  query : String → Call

abbrev pub Log : Type 0
Log = Trace Call Unit

module _ (answer : Log → Call → Reply Unit) where
  -- the checks of mysql and postgres, which differ in the driver and in the name of the product
  unfoldable pub database_body : String → String → Config → Body Call Unit
  unfolding call deferred succeed
  database_body driver product c =
      call answer (open_db driver c.dsn) (product <> " health check failed on connect") (λ _.
        deferred answer close_db (product <> " health check failed on connection closing") (
          call answer ping (product <> " health check failed on ping") (λ _.
            call answer (query "SELECT VERSION()") (product <> " health check failed on select")
              (λ _.
                deferred answer close_rows (product <> " health check failed on rows closing")
                  succeed))))

  unfoldable pub mysql_check : Config → CheckResponse × Log
  unfolding database_body
  mysql_check c = let (error, trace) = database_body "mysql" "MySQL" c [] in (respond error, trace)

  unfoldable pub postgres_check : Config → CheckResponse × Log
  unfolding database_body
  postgres_check c =
      let (error, trace) = database_body "postgres" "PostgreSQL" c [] in (respond error, trace)

  -- the close of the rows returns no error
  unfoldable pub pgx_body : Config → Body Call Unit
  unfolding call deferred finally succeed
  pgx_body c = call answer (connect c.dsn) "PostgreSQL health check failed on connect" (λ _.
      deferred answer close_db "PostgreSQL health check failed on connection closing" (
        call answer ping "PostgreSQL health check failed on ping" (λ _.
          call answer (query "SELECT VERSION()") "PostgreSQL health check failed on select"
            (λ _. finally answer close_rows succeed))))

  -- the text of pgx4 and of pgx5 is the same
  unfoldable pub pgx4_check : Config → CheckResponse × Log
  unfolding pgx_body
  pgx4_check c = let (error, trace) = pgx_body c [] in (respond error, trace)

  unfoldable pub pgx5_check : Config → CheckResponse × Log
  unfolding pgx_body
  pgx5_check c = let (error, trace) = pgx_body c [] in (respond error, trace)
