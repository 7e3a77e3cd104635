-- ===== src/Planner/Tests.antt =====
-- Examples, and the theorems of the planner at concrete inputs.
use noe_db.Base.{[], ◌∷◌, refl, true, List, ◌≡◌, ℕ}
use noe_db.Base.Bytes.{Bytes}
use noe_db.Planner.Like.{sql_like, first_row, next_row, rows}
use noe_db.Planner.Like.Matching.{matches, sql_like-matches}
use noe_db.Planner.SetOps.{RowMap, combine_set_op, align_set_op_rows, except, row_key}
use noe_db.Planner.SetOps.Counts.{count, wanted, count-combine_set_op}

abbrev word : List ℕ
word = b'n' ∷ b'o' ∷ b'e' ∷ []

-- `%o_`
abbrev some_o : List ℕ
some_o = b'%' ∷ b'o' ∷ b'_' ∷ []

word_matches : sql_like word some_o ≡ true
unfolding sql_like first_row next_row rows
word_matches = refl

sql_like-matches_example : sql_like word some_o ≡ matches word some_o
sql_like-matches_example = sql_like-matches word some_o

abbrev one_col : RowMap Bytes
one_col = (b'a' ∷ [], 7 ∷ []) ∷ []

abbrev as_is : Bytes → Bytes
as_is v = v

count-combine_set_op_example :
    count as_is
      (row_key as_is one_col)
      (combine_set_op as_is (one_col ∷ one_col ∷ []) (one_col ∷ []) except true)
    ≡ wanted except true (count as_is (row_key as_is one_col) (one_col ∷ one_col ∷ [])) (
        count as_is
          (row_key as_is one_col)
          (align_set_op_rows (one_col ∷ one_col ∷ []) (one_col ∷ [])))
count-combine_set_op_example =
    count-combine_set_op as_is (row_key as_is one_col) (one_col ∷ one_col ∷ []) (one_col ∷ [])
      except true
