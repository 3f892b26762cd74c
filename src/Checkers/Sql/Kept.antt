-- ===== src/Checkers/Sql/Kept.antt =====
-- checks/mysql/check.go, checks/postgres/check.go, checks/pgx4/check.go, checks/pgx5/check.go: what the checks
-- leave behind and what they show by their answer.
use health_go.Base.{String, Bool, true, false, refl}
use health_go.Checkers.{Reply, answered}
use health_go.Checkers.Resources.{
  Role, neutral, opens, closes, Releases, succeed-Releases, call-Releases, opened-Releases,
  held-Releases,
}
use health_go.Checkers.Failures.{
  Honest, succeed-Honest, call-Honest, deferred-Honest, finally-Honest,
}
use health_go.Checkers.Verdicts.{IsSound, body-IsSound}
use health_go.Checkers.Sql.{
  Config, Call, open_db, connect, ping, query, close_db, close_rows, Log, database_body, pgx_body,
  mysql_check, postgres_check, pgx4_check, pgx5_check,
}

-- the connection is 0, the rows are 1
abbrev pub role : Call → Role
role (open_db driver dsn) = opens 0
role (connect dsn) = opens 0
role (query text) = opens 1
role close_rows = closes 1
role close_db = closes 0
role ping = neutral

-- with `database/sql` the close of the rows counts, with pgx it returns nothing
abbrev pub fine : Bool → Call → Reply Unit → Bool
fine false close_rows r = true
fine rows_count c r = answered r

module _ (answer : Log → Call → Reply Unit) (c : Config) where
  database-Releases :
      (driver product : String) → Releases role (database_body answer driver product c)
  unfolding database_body
  database-Releases driver product = opened-Releases role answer 0 _ _ _ _ refl refl (λ _.
      call-Releases role answer _ _ refl
        (λ _. opened-Releases role answer 1 _ _ _ _ refl refl (λ _. succeed-Releases role)))

  database-Honest :
      (driver product : String) → Honest (fine true) (database_body answer driver product c)
  unfolding database_body
  database-Honest driver product =
      call-Honest (fine true) answer _ _ (λ r. refl)
        (λ _.
          deferred-Honest (fine true) answer _ _ (λ r. refl)
            (call-Honest (fine true) answer _ _ (λ r. refl)
              (λ _.
                call-Honest (fine true) answer _ _ (λ r. refl)
                  (λ _.
                    deferred-Honest (fine true) answer _ _ (λ r. refl)
                      (succeed-Honest (fine true))))))

  pgx-Releases : Releases role (pgx_body answer c)
  unfolding pgx_body
  pgx-Releases = opened-Releases role answer 0 _ _ _ _ refl refl (λ _.
      call-Releases role answer _ _ refl
        (λ _. held-Releases role answer 1 _ _ _ refl refl (λ _. succeed-Releases role)))

  pgx-Honest : Honest (fine false) (pgx_body answer c)
  unfolding pgx_body
  pgx-Honest =
      call-Honest (fine false) answer _ _ (λ r. refl)
        (λ _.
          deferred-Honest (fine false) answer _ _ (λ r. refl)
            (call-Honest (fine false) answer _ _ (λ r. refl)
              (λ _.
                call-Honest (fine false) answer _ _ (λ r. refl)
                  (λ _.
                    finally-Honest (fine false) answer _ (λ r. refl)
                      (succeed-Honest (fine false))))))

-- However the database answers, the checks of mysql, postgres, pgx4 and pgx5 close the rows and the
-- connection that they opened, the rows first. They report no error just when no call failed, the
-- closing calls included; in pgx the close of the rows has no error.
pub sql_checks-IsSound :
    (answer : Log → Call → Reply Unit) (c : Config)
    → IsSound role (fine true) (mysql_check answer c)
      × IsSound role (fine true) (postgres_check answer c)
      × IsSound role (fine false) (pgx4_check answer c)
      × IsSound role (fine false) (pgx5_check answer c)
unfolding mysql_check postgres_check pgx4_check pgx5_check
sql_checks-IsSound answer c = (
  body-IsSound role (fine true) _ (database-Releases answer c "mysql" "MySQL")
      (database-Honest answer c "mysql" "MySQL"),
  body-IsSound role (fine true) _ (database-Releases answer c "postgres" "PostgreSQL")
      (database-Honest answer c "postgres" "PostgreSQL"),
  body-IsSound role (fine false) _ (pgx-Releases answer c) (pgx-Honest answer c),
  body-IsSound role (fine false) _ (pgx-Releases answer c) (pgx-Honest answer c),
)
