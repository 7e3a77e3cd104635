-- ===== src/Planner/SetOps/Aligned.antt =====
-- The columns of the right side.
use Prim.Native.Nat.Ordering.{lt}
use noe_db.Base.{[], ◌∷◌, refl, ◌≡◌}
use noe_db.Base.Bytes.{Bytes, cmp_bytes}
use noe_db.Base.ByteMap.Sorted.{cmp_bytes_turn}
use noe_db.Planner.SetOps.{align_set_op_rows, sorted_col_names, sort_cols, insert_col}

-- Renaming the right side of a set operation exchanges the values of a row of two columns that are not in
-- the order of their names, also where both sides are this one row.
pub align_set_op_rows-exchanges {ℓ} :
    {V : Type ℓ} (a b : Bytes) (x y : V)
    → cmp_bytes a b ≡ lt
    → align_set_op_rows (((b, x) ∷ (a, y) ∷ []) ∷ []) (((b, x) ∷ (a, y) ∷ []) ∷ [])
      ≡ ((a, x) ∷ (b, y) ∷ []) ∷ []
unfolding align_set_op_rows sorted_col_names sort_cols insert_col
align_set_op_rows-exchanges a b x y h = rw (cmp_bytes_turn a b h) refl
