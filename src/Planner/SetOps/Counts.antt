-- ===== src/Planner/SetOps/Counts.antt =====
-- How often a key of a row stands in the results.
use noe_db.Base.{
  [], ◌∷◌, true, false, refl, arith, Bool-cases, inl, inr, Bool, ℕ, ◌≡◌, List, ltb, ◌++◌, min,
  if◌then◌else◌, ◌-◌, ◌&&◌, ◌+◌, ap, not, ◌∙◌, ◌==◌,
}
use noe_db.Base.Bytes.{Bytes, cmp_bytes, is_eq, eq_of_cmp_bytes}
use noe_db.Planner.SetOps.{
  SetOpKind, union, intersect, except, RowMap, has, count_in, less_one, combine_set_op,
  align_set_op_rows, union_rows, intersect_rows, except_rows, matched_rows, distinct_rows, keys_of,
  row_key,
}

count_in-append : (k : Bytes) (a b : List Bytes) → count_in k (a ++ b) ≡ count_in k a + count_in k b
count_in-append k [] b = omega arith
count_in-append k (j ∷ a) b = ground (arith, count_in-append k a b)

has-count_in : (k : Bytes) (keys : List Bytes) → has k keys ≡ ltb 0 (count_in k keys)
has-count_in k [] = refl
has-count_in k (j ∷ keys) = ground (arith, has-count_in k keys)

same_key : (k j : Bytes) → is_eq (cmp_bytes k j) ≡ true → k ≡ j
same_key k j h = eq_of_cmp_bytes k j (ground (arith, h))

-- What SQL says of each operation, by the counts of a row key on both sides.
abbrev pub wanted : SetOpKind → Bool → ℕ → ℕ → ℕ
wanted union true l r = l + r
wanted union false l r = min (l + r) 1
wanted intersect true l r = min l r
wanted intersect false l r = min (min l r) 1
wanted except true l r = l - r
wanted except false l r = if r == 0 then min l 1 else 0

module _ {ℓ} {V : Type ℓ} (as_bytes : V → Bytes) where
  -- How many rows have the key.
  abbrev pub count : Bytes → List (RowMap V) → ℕ
  count k rows = count_in k (keys_of as_bytes rows)

  keys_of-append :
      (a b : List (RowMap V)) → keys_of as_bytes (a ++ b) ≡ keys_of as_bytes a ++ keys_of as_bytes b
  keys_of-append [] b = refl
  keys_of-append (x ∷ a) b = ap (λ ks. row_key as_bytes x ∷ ks) (keys_of-append a b)

  count-used :
      (k : Bytes) (counts : Bytes → ℕ) (rows : List (RowMap V))
      → count k (matched_rows as_bytes true counts rows) ≡ min (count k rows) (counts k)
  unfolding matched_rows
  count-used k counts [] = omega arith
  count-used k counts (row ∷ rows) =
      let key = row_key as_bytes row in
      elim (Bool-cases (is_eq (cmp_bytes k key))) [
        | inl same ↦ ground (
          arith,
          same,
          ap counts (same_key k key same),
          count-used k counts rows,
          count-used k (less_one key counts) rows,
        )
        | inr other ↦
            ground (arith, other, count-used k counts rows, count-used k (less_one key counts) rows)
      ]

  count-unused :
      (k : Bytes) (counts : Bytes → ℕ) (rows : List (RowMap V))
      → count k (matched_rows as_bytes false counts rows) ≡ count k rows - counts k
  unfolding matched_rows
  count-unused k counts [] = omega arith
  count-unused k counts (row ∷ rows) =
      let key = row_key as_bytes row in
      elim (Bool-cases (is_eq (cmp_bytes k key))) [
        | inl same ↦ ground (
          arith,
          same,
          ap counts (same_key k key same),
          count-unused k counts rows,
          count-unused k (less_one key counts) rows,
        )
        | inr other ↦
            ground
              (arith, other, count-unused k counts rows, count-unused k (less_one key counts) rows)
      ]

  count-distinct_rows :
      (k : Bytes) (passes : Bytes → Bool) (seen : List Bytes) (rows : List (RowMap V))
      → count k (distinct_rows as_bytes passes seen rows)
        ≡ (if passes k && not (has k seen) then min (count k rows) 1 else 0)
  unfolding distinct_rows
  count-distinct_rows k passes seen [] = ground arith
  count-distinct_rows k passes seen (row ∷ rows) =
      let key = row_key as_bytes row in
      elim (Bool-cases (is_eq (cmp_bytes k key))) [
        | inl same ↦ ground (
          arith,
          same,
          ap passes (same_key k key same),
          ap (λ j. has j seen) (same_key k key same),
          count-distinct_rows k passes seen rows,
          count-distinct_rows k passes (key ∷ seen) rows,
        )
        | inr other ↦ ground (
          arith,
          other,
          count-distinct_rows k passes seen rows,
          count-distinct_rows k passes (key ∷ seen) rows,
        )
      ]

  -- The key of a row is what the code compares: the names and the bytes of its cells by column. For
  -- every key, the rows with it that a set operation gives, with ALL or without, are as many as SQL
  -- makes of the number of rows with that key on the left and of the number of rows with it on the
  -- right once the code has given these the column names of the left. Two rows with one key are not
  -- told apart.
  pub count-combine_set_op :
      (k : Bytes) (left right : List (RowMap V)) (op : SetOpKind) (all : Bool)
      → count k (combine_set_op as_bytes left right op all)
        ≡ wanted op all (count k left) (count k (align_set_op_rows left right))
  unfolding combine_set_op union_rows intersect_rows except_rows
  count-combine_set_op k left right union true =
      let aligned = align_set_op_rows left right in
      ap (count_in k) (keys_of-append left aligned)
      ∙ count_in-append k (keys_of as_bytes left) (keys_of as_bytes aligned)
  count-combine_set_op k left right union false =
      let aligned = align_set_op_rows left right in
      count-distinct_rows k (λ key. true) [] (left ++ aligned)
      ∙ ap (λ n. min n 1)
          (ap (count_in k) (keys_of-append left aligned)
            ∙ count_in-append k (keys_of as_bytes left) (keys_of as_bytes aligned))
  count-combine_set_op k left right intersect true =
      count-used k (λ j. count_in j (keys_of as_bytes (align_set_op_rows left right))) left
  count-combine_set_op k left right intersect false =
      let keys = keys_of as_bytes (align_set_op_rows left right) in
      ground (arith, count-distinct_rows k (λ key. has key keys) [] left, has-count_in k keys)
  count-combine_set_op k left right except true =
      count-unused k (λ j. count_in j (keys_of as_bytes (align_set_op_rows left right))) left
  count-combine_set_op k left right except false =
      let keys = keys_of as_bytes (align_set_op_rows left right) in
      ground (arith, count-distinct_rows k (λ key. not (has key keys)) [] left, has-count_in k keys)
