-- ===== src/Planner/Like.antt =====
-- crates/noedb-planner/src/eval.rs: `LIKE`, by a table of the prefixes that match. A string is the list
-- of the numbers of its characters.
pub mod Matching
use noe_db.Base.{
  [], ◌∷◌, zero, suc, true, false, List, Bool, ℕ, ◌==◌, get_or, if◌then◌else◌, ◌&&◌, length, ◌||◌,
}

abbrev pub percent : ℕ
percent = b'%'

abbrev pub underscore : ℕ
underscore = b'_'

-- The rest of the first row: `dp[0][j] = dp[0][j - 1]` at a `%`, behind the entry `prev`.
unfoldable pub first_row : Bool → List ℕ → List Bool
first_row prev [] = prev ∷ []
first_row prev (p ∷ pattern) = prev ∷ first_row (p == percent && prev) pattern

-- One entry: from the entry to the left, the one above and the one above to the left.
abbrev pub cell : ℕ → ℕ → Bool → Bool → Bool → Bool
cell c p left above above_left =
    if p == percent then left || above else (p == underscore || c == p) && above_left

-- The rest of a row behind its entry `left`, from the row above.
unfoldable pub next_row : ℕ → List ℕ → Bool → List Bool → List Bool
next_row c [] left above = left ∷ []
next_row c (p ∷ pattern) left [] = left ∷ []
next_row c (p ∷ pattern) left (above_left ∷ above) =
    left ∷ next_row c pattern (cell c p left (get_or above 0 false) above_left) above

-- The last row, from the row before the text.
unfoldable pub rows : List ℕ → List ℕ → List Bool → List Bool
rows [] pattern row = row
rows (c ∷ text) pattern row = rows text pattern (next_row c pattern false row)

-- `dp[t.len()][p.len()]`
unfoldable pub sql_like : List ℕ → List ℕ → Bool
unfolding rows first_row next_row
sql_like text pattern = get_or (rows text pattern (first_row true pattern)) (length pattern) false
