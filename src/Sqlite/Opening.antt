-- ===== src/Sqlite/Opening.antt =====
-- persister/sqlite/sqlite.go, New: an open persister or an error.
use health_go.Base.{
  String, false, Option, none, some, ◌≡◌, refl, arith, ◌==◌, ◌⊎◌, inl, inr, Bool-cases,
  Option-cases, Sum-cases,
}
use health_go.Base.Text.{◌<>◌}
use health_go.Base.Int.{is_zero, cmp_or}
use health_go.Sqlite.{
  Database, Persister, Config, Driver, fresh, new, connect, default_debounce_interval,
}

module _ {D : Type 0} (driver : Driver D) (q : Database D) where
  -- what New returns: a persister that is open, or an error with no database left open
  abbrev Outcome : (Config × Persister D) ⊎ (String × Option D) → Type 0
  Outcome result =
      ((c : Config) × (d : D) × (result ≡ inl (c, fresh (driver.exec_schema d).0))
        × ((driver.exec_schema d).1 ≡ none)
        × (is_zero c.debounce_interval ≡ false))
      ⊎ ((message : String) × (result ≡ inr (message, none)))
      ⊎ ((message : String) × (d : D) × (result ≡ inr (message, some (q.close_db d).0)))

  connect-cases :
      (c : Config) (d : D) → is_zero c.debounce_interval ≡ false → Outcome (connect driver q c d)
  unfolding connect
  connect-cases c d some_time =
      let pinged = (driver.ping d).0 in
      elim (Option-cases (driver.ping d).1) [
        | inr failed ↦ let (m, e) = failed in rw (connect, e) (inr (inr (_, pinged, refl)))
        | inl well ↦ elim (Option-cases (driver.exec_schema pinged).1) [
          | inr failed ↦
              let (m, e) = failed in
              rw (connect, well, e) (inr (inr (_, (driver.exec_schema pinged).0, refl)))
          | inl made ↦ rw (connect, well, made) (inl (c, pinged, refl, made, some_time))
        ]
      ]

-- New either returns a persister that is open with nothing pending, on the database with its
-- schema, with a debounce interval that is not zero; or an error, with no database left open:
-- either none was opened, or it was closed.
pub new-cases :
    {D : Type 0} (driver : Driver D) (q : Database D) (c : Config)
    → ((c' : Config) × (d : D) × (new driver q c ≡ inl (c', fresh (driver.exec_schema d).0))
        × ((driver.exec_schema d).1 ≡ none)
        × (is_zero c'.debounce_interval ≡ false))
      ⊎ ((message : String) × (new driver q c ≡ inr (message, none)))
      ⊎ ((message : String) × (d : D) × (new driver q c ≡ inr (message, some (q.close_db d).0)))
unfolding new
new-cases driver q c =
    let c' = record c {
      debounce_interval = cmp_or c.debounce_interval default_debounce_interval;
    } in
    elim (Bool-cases (c.path == "")) [
      | inl nameless ↦ rw nameless (inr (inl (_, refl)))
      | inr named ↦
          elim (Sum-cases (driver.open_db (c.path <> "?_journal_mode=WAL&_busy_timeout=5000"))) [
            | inr failed ↦ let (m, e) = failed in rw (named, e) (inr (inl (_, refl)))
            | inl opened ↦
                let (d, e) = opened in
                rw (named, e)
                  (connect-cases driver q
                    (record c {
                      debounce_interval = cmp_or c.debounce_interval default_debounce_interval;
                    })
                    d (ground arith))
          ]
    ]
