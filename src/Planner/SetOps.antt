-- ===== src/Planner/SetOps.antt =====
-- crates/noedb-planner/src/setops.rs: UNION, INTERSECT and EXCEPT. The values enter by their bytes; a
-- set of keys is the list of its members, and a map of counts a function.
pub mod Counts
pub mod Aligned
use noe_db.Base.{
  [], ◌∷◌, zero, suc, true, false, List, ℕ, if◌then◌else◌, Bool, ◌++◌, map, ◌&&◌, ◌-◌, ◌||◌, not,
  ltb,
}
use noe_db.Base.Bytes.{Bytes, cmp_bytes, is_eq, is_gt}

pub data SetOpKind : Type 0 where
  union : SetOpKind
  intersect : SetOpKind
  except : SetOpKind

-- The columns of a row, each with its value.
abbrev pub RowMap {ℓ} : Type ℓ → Type ℓ
RowMap V = List (Bytes × V)

abbrev pub has : Bytes → List Bytes → Bool
has k [] = false
has k (j ∷ keys) = is_eq (cmp_bytes k j) || has k keys

abbrev pub count_in : Bytes → List Bytes → ℕ
count_in k [] = 0
count_in k (j ∷ keys) = if is_eq (cmp_bytes k j) then suc (count_in k keys) else count_in k keys

abbrev pub less_one : Bytes → (Bytes → ℕ) → Bytes → ℕ
less_one k counts j = if is_eq (cmp_bytes j k) then counts j - 1 else counts j

module _ {ℓ} {V : Type ℓ} where
  -- A stable sort by the names of the columns.
  unfoldable pub insert_col : Bytes × V → RowMap V → RowMap V
  insert_col c [] = c ∷ []
  insert_col c (d ∷ cols) =
      let rest = insert_col c cols in if is_gt (cmp_bytes c.0 d.0) then d ∷ rest else c ∷ d ∷ cols

  unfoldable pub sort_cols : RowMap V → RowMap V
  unfolding insert_col
  sort_cols [] = []
  sort_cols (c ∷ cols) = insert_col c (sort_cols cols)

  unfoldable pub sorted_col_names : RowMap V → List Bytes
  sorted_col_names row = map (λ c. c.0) (sort_cols row)

  abbrev pub zip_cols : List Bytes → List V → RowMap V
  zip_cols [] vals = []
  zip_cols (n ∷ names) [] = []
  zip_cols (n ∷ names) (v ∷ vals) = (n, v) ∷ zip_cols names vals

  -- The rows of the right side with the names of the left.
  unfoldable pub align_set_op_rows : List (RowMap V) → List (RowMap V) → List (RowMap V)
  align_set_op_rows [] right = right
  align_set_op_rows (row ∷ left) right =
      map (λ (r : RowMap V). zip_cols (sorted_col_names row) (map (λ c. c.1) r)) right

  -- The bytes of a value are a parameter.
  module _ (as_bytes : V → Bytes) where
    abbrev pub cell_key : RowMap V → Bytes
    cell_key [] = []
    cell_key ((name, val) ∷ cols) = name ++ (0 ∷ (as_bytes val ++ (0 ∷ cell_key cols)))

    unfoldable pub row_key : RowMap V → Bytes
    row_key row = cell_key (sort_cols row)

    abbrev pub keys_of : List (RowMap V) → List Bytes
    keys_of rows = map row_key rows

    -- The rows that pass, the first of each key: `seen` holds the keys so far.
    unfoldable pub distinct_rows : (Bytes → Bool) → List Bytes → List (RowMap V) → List (RowMap V)
    distinct_rows passes seen [] = []
    distinct_rows passes seen (row ∷ rows) =
        let key = row_key row in
        let without = distinct_rows passes seen rows in
        let with_row = row ∷ distinct_rows passes (key ∷ seen) rows in
        if passes key && not (has key seen) then with_row else without

    unfoldable pub union_rows : List (RowMap V) → List (RowMap V) → Bool → List (RowMap V)
    union_rows left right all =
        if all then left ++ right else distinct_rows (λ key. true) [] (left ++ right)

    -- The loops that use up the counts of the right side: with `keep`, the rows that find a count, else
    -- the others.
    unfoldable pub matched_rows : Bool → (Bytes → ℕ) → List (RowMap V) → List (RowMap V)
    matched_rows keep counts [] = []
    matched_rows keep counts (row ∷ rows) =
        let key = row_key row in
        let used = matched_rows keep (less_one key counts) rows in
        let unused = matched_rows keep counts rows in
        if ltb 0 (counts key)
        then (if keep then row ∷ used else used)
        else (if keep then unused else row ∷ unused)

    unfoldable pub intersect_rows : List (RowMap V) → List (RowMap V) → Bool → List (RowMap V)
    intersect_rows left right all =
        if all
        then matched_rows true (λ k. count_in k (keys_of right)) left
        else distinct_rows (λ key. has key (keys_of right)) [] left

    unfoldable pub except_rows : List (RowMap V) → List (RowMap V) → Bool → List (RowMap V)
    except_rows left right all =
        if all
        then matched_rows false (λ k. count_in k (keys_of right)) left
        else distinct_rows (λ key. not (has key (keys_of right))) [] left

    unfoldable pub combine_set_op :
        List (RowMap V) → List (RowMap V) → SetOpKind → Bool → List (RowMap V)
    combine_set_op left right union all = union_rows left (align_set_op_rows left right) all
    combine_set_op left right intersect all = intersect_rows left (align_set_op_rows left right) all
    combine_set_op left right except all = except_rows left (align_set_op_rows left right) all
