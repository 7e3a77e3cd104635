-- ===== src/Planner/Row.antt =====
-- crates/noedb-planner/src/eval.rs: the column that a name refers to. The cells are of any type, so
-- that a row and a list of the columns' kinds are resolved alike.
pub mod Related
use noe_db.Base.{Bool, false, List, [], ◌∷◌, ◌++◌, Option, none, some, ◌==◌, if◌then◌else◌}
use noe_db.Base.Bytes.{Bytes}
use noe_db.Base.Text.{eq_bytes}
use noe_db.Sql.Ast.{ColumnRef, named_column, star_column, qualified_star}
use noe_db.Planner.Value.{ExecResult, ok, err, ok_or, unsupported_expr, unknown_column}

-- `format!("{}.{}", table, column)`
abbrev pub qualified : Bytes → Bytes → Bytes
qualified table column = table ++ (b'.' ∷ column)

-- What stands behind the last dot: `rsplit_once('.')`.
unfoldable pub bare_name : Bytes → Option Bytes
bare_name [] = none
bare_name (x ∷ xs) = elim (bare_name xs) [
  | some bare ↦ some bare
  | none ↦ if x == b'.' then some xs else none
]

abbrev pub is_bare : Option Bytes → Bytes → Bool
is_bare none name = false
is_bare (some bare) name = eq_bytes bare name

module _ {A : Type 0} where
  -- `row.iter().find(|(n, _)| n == name)`
  unfoldable pub find_cell : Bytes → List (Bytes × A) → Option A
  unfolding eq_bytes
  find_cell name [] = none
  find_cell name ((n, a) ∷ row) = if eq_bytes n name then some a else find_cell name row

  -- The cells whose names end in a dot and the column.
  unfoldable pub bare_cells : Bytes → List (Bytes × A) → List A
  unfolding bare_name
  bare_cells name [] = []
  bare_cells name ((n, a) ∷ row) =
      if is_bare (bare_name n) name then a ∷ bare_cells name row else bare_cells name row

  abbrev pub only_one : Bytes → List A → ExecResult A
  only_one name (a ∷ []) = ok a
  only_one name _ = err (unknown_column name)

  abbrev pub or_else : Option A → ExecResult A → ExecResult A
  or_else (some a) r = ok a
  or_else none r = r

  unfoldable pub resolve : ColumnRef → List (Bytes × A) → ExecResult A
  unfolding find_cell bare_cells
  resolve (named_column (some t) column) row =
      or_else (find_cell (qualified t column) row)
        (ok_or (unknown_column (qualified t column)) (find_cell column row))
  resolve (named_column none column) row =
      or_else (find_cell column row) (only_one column (bare_cells column row))
  resolve star_column row = err unsupported_expr
  resolve (qualified_star t) row = err unsupported_expr
