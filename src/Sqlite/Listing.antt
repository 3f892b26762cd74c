-- ===== src/Sqlite/Listing.antt =====
-- persister/sqlite/sqlite.go, LoadAllCheckStates: all states against the state of one check.
use health_go.Base.{
  String, false, Option, none, some, List, [], ◌∷◌, ◌≡◌, refl, ◌∙◌, ap, sym, arith, ◌⊎◌, inl,
  eq_iff, ◌==◌, if◌then◌else◌,
}
use health_go.Base.GoMap.{GoMap, get, put, get-put, IsMap}
use health_go.Types.{Error, CheckState}
use health_go.Sqlite.{
  Database, Persister, CheckRow, scan_check_state, scan_check_state_from_rows, load_check,
  load_all_check_states, collect, finish_rows,
}

-- the rows of a table, scanned without an error
abbrev pub scanned : GoMap CheckRow → List (String × (CheckRow ⊎ String))
scanned [] = []
scanned ((name, row) ∷ rows) = (name, inl row) ∷ scanned rows

-- What a SELECT of all rows promises beside one of a single row: it lists each row once.
pub record Lists {D : Type 0} (q : Database D) (d : D) : Type 0 where
  pub rows : GoMap CheckRow
  pub distinct : IsMap rows
  pub listed : q.select_checks d ≡ inl (record { scans = scanned rows; err = none })
  pub same : (j : String) → q.select_check j d ≡ (get j rows, none)

-- the state of a row that may be there, or another one
abbrev scan_or : Option CheckRow → Option CheckState → Option CheckState
scan_or none s = s
scan_or (some row) s = some (scan_check_state row)

-- Both copies of the scan make the same state of a row.
scans-agree : (row : CheckRow) → scan_check_state_from_rows row ≡ scan_check_state row
unfolding scan_check_state_from_rows scan_check_state
scans-agree row = refl

collect-scanned :
    {D : Type 0} (q : Database D) (rows : GoMap CheckRow) (states : GoMap CheckState)
    → IsMap rows
    → (all : GoMap CheckState) × (collect q (scanned rows) states ≡ inl all)
      × ((j : String) → get j all ≡ scan_or (get j rows) (get j states))
unfolding collect get
collect-scanned q [] states distinct = (states, refl, λ j. refl)
collect-scanned q ((k, row) ∷ rows) states distinct =
    let (all, same, each) =
      collect-scanned q rows (put k (scan_check_state_from_rows row) states) distinct.1 in
    (
      all,
      same,
      λ j.
          let added =
            get-put j k (scan_check_state_from_rows row) states
            ∙ ap (λ x. if k == j then some x else get j states) (scans-agree row) in
          ground (arith, each j, added, eq_iff k j, distinct.0),
    )

load_all-listed :
    {D : Type 0} (q : Database D) (p : Persister D) (rows : GoMap CheckRow) {all : GoMap CheckState}
    → p.closed ≡ false
    → q.select_checks p.db ≡ inl (record { scans = scanned rows; err = none })
    → collect q (scanned rows) [] ≡ inl all
    → load_all_check_states q p ≡ (all, none)
unfolding load_all_check_states finish_rows
load_all-listed q p rows opened listed same = rw (opened, listed) (rw (finish_rows, same) refl)

load_check-listed :
    {D : Type 0} (q : Database D) (p : Persister D) (j : String) {row : Option CheckRow}
    → p.closed ≡ false
    → q.select_check j p.db ≡ (row, none)
    → load_check q j p ≡ (scan_or row none, none)
unfolding load_check
load_check-listed q p j {row = none} opened found =
    rw (opened, found)
      (ap
        (λ (x : Option CheckRow × Error).
          (elim x.0 [ none ↦ none | some r ↦ some (scan_check_state r) ], none))
        found)
load_check-listed q p j {row = some row} opened found =
    rw (opened, found)
      (ap
        (λ (x : Option CheckRow × Error).
          (elim x.0 [ none ↦ none | some r ↦ some (scan_check_state r) ], none))
        found)

-- On an open persister whose database lists each row once, LoadAllCheckStates gives no error, and
-- for each name the state that LoadCheckState gives for it.
pub load_all-agrees :
    {D : Type 0} (q : Database D) (p : Persister D)
    → p.closed ≡ false
    → Lists q p.db
    → ((load_all_check_states q p).1 ≡ none)
      × ((j : String) → load_check q j p ≡ (get j (load_all_check_states q p).0, none))
unfolding get
load_all-agrees q p opened lists =
    let (all, same, each) = collect-scanned q lists.rows [] lists.distinct in
    let whole = load_all-listed q p lists.rows opened lists.listed same in
    (
      rw whole refl,
      λ j.
          load_check-listed q p j opened (lists.same j)
          ∙ rw whole (ap (λ s. (s, none)) (sym (each j))),
    )
