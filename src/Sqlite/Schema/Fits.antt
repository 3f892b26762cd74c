-- ===== src/Sqlite/Schema/Fits.antt =====
-- persister/sqlite/sqlite.go: the rows of the saves fit the tables, and the loads can scan them.
use health_go.Base.{
  String, Bool, true, false, not, ◌&&◌, Option, none, some, List, [], ◌∷◌, ◌≡◌, refl, arith, ◌==◌,
  ℕ, if◌then◌else◌,
}
use health_go.Base.Int.{ℤ, eq_ℤ}
use health_go.Types.{CheckState}
use health_go.Sqlite.Table.{CheckRow, TrackerRow, check_row}
use health_go.Sqlite.Schema.{
  integer, text, Column, Value, null, number, word, Target, plain, nullable, check_table,
  tracker_table, check_bindings, tracker_bindings, check_targets, tracker_targets,
}

-- a CHECK for one integer, if there is one; it lets NULL pass
unfoldable pub passes : Option ℤ → ℤ → Bool
passes none n = true
passes (some m) n = eq_ℤ n m

-- a column takes a value of its type, and NULL unless it is NOT NULL
unfoldable pub takes : Column → Value → Bool
unfolding passes
takes c null = not c.not_null
takes c (number n) = elim c.column_type [ integer ↦ passes c.check n | text ↦ false ]
takes c (word s) = elim c.column_type [ integer ↦ false | text ↦ true ]

-- a statement binds each column of a table once, to a value that the column takes
unfoldable pub accepts : List Column → List (String × Value) → Bool
unfolding takes
accepts [] [] = true
accepts [] (b ∷ bs) = false
accepts (c ∷ cs) [] = false
accepts (c ∷ cs) ((name, v) ∷ bs) = c.name == name && (takes c v && accepts cs bs)

-- a variable takes a value of its type, and NULL only if it may be NULL
unfoldable pub receives : Target → Value → Bool
receives (plain t) null = false
receives (nullable t) null = true
receives (plain t) (number n) = elim t [ integer ↦ true | text ↦ false ]
receives (nullable t) (number n) = elim t [ integer ↦ true | text ↦ false ]
receives (plain t) (word s) = elim t [ integer ↦ false | text ↦ true ]
receives (nullable t) (word s) = elim t [ integer ↦ false | text ↦ true ]

-- the value of a column in a row
unfoldable pub column_of : String → List (String × Value) → Option Value
column_of name [] = none
column_of name ((n, v) ∷ bs) = let rest = column_of name bs in if n == name then some v else rest

-- every column that is selected is there, and its variable takes its value
unfoldable pub scans : List (String × Target) → List (String × Value) → Bool
unfolding receives column_of
scans [] bs = true
scans ((name, t) ∷ ts) bs =
    let rest = scans ts bs in
    elim (column_of name bs) [ none ↦ false | some v ↦ receives t v && rest ]

module _ (format : ℕ → String) where
  check-accepted :
      (name : String) (row : CheckRow) → accepts check_table (check_bindings format name row) ≡ true
  unfolding accepts takes passes check_bindings
  check-accepted name row = ground arith

  check-scans :
      (name : String) (row : CheckRow) → scans check_targets (check_bindings format name row) ≡ true
  unfolding scans receives column_of check_bindings
  check-scans name row = ground arith

-- The statements of the persister fit its schema. Whatever state of a check is saved, the INSERT binds every
-- column of its table once, to a value that has the type of the column, is not NULL where the column
-- is NOT NULL, and meets its CHECK, and each column that the SELECT asks for is in the row, with a value that the variable
-- it is scanned into can take; and so for
-- every row of the tracker.
pub saves_fit :
    {C : Type 0} (json : C → String) (format : ℕ → String) (name : String) (state : CheckState)
    (row : TrackerRow C)
    → (accepts check_table (check_bindings format name (check_row state)) ≡ true)
      × (scans check_targets (check_bindings format name (check_row state)) ≡ true)
      × (accepts tracker_table (tracker_bindings json format row) ≡ true)
      × (scans tracker_targets (tracker_bindings json format row) ≡ true)
unfolding accepts takes passes scans receives column_of tracker_bindings
saves_fit json format name state row = (
  check-accepted format name (check_row state),
  check-scans format name (check_row state),
  refl,
  refl,
)
