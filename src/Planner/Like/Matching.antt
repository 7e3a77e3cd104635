-- ===== src/Planner/Like/Matching.antt =====
-- What `LIKE` means.
use noe_db.Base.{
  [], ◌∷◌, true, false, refl, arith, List, ℕ, Bool, ◌==◌, ◌&&◌, if◌then◌else◌, ◌||◌, ◌≡◌, get_or,
  length, ◌∙◌, sym, ap,
}
use noe_db.Planner.Like.{percent, underscore, first_row, next_row, rows, sql_like, cell}

-- The text matches the pattern: `%` is any piece of text, `_` any character.
unfoldable pub matches : List ℕ → List ℕ → Bool
matches [] [] = true
matches [] (p ∷ pattern) = p == percent && matches [] pattern
matches (c ∷ text) [] = false
matches (c ∷ text) (p ∷ pattern) =
    let here = matches (c ∷ text) pattern in
    let later = matches text (p ∷ pattern) in
    let both = matches text pattern in
    if p == percent then here || later else (p == underscore || c == p) && both

-- What is left of the pattern behind the entry: a `%` in front of the entry can still take text.
abbrev res : ℕ → List ℕ → List ℕ → Bool
res prev text pattern =
    if prev == percent then matches text (prev ∷ pattern) else matches text pattern

-- Some entry of the row leads to a match of the rest.
abbrev leads : ℕ → List ℕ → List ℕ → List Bool → Bool
leads prev text pattern [] = false
leads prev text [] (r ∷ row) = r && res prev text []
leads prev text (p ∷ pattern) (r ∷ row) =
    (r && res prev text (p ∷ pattern)) || leads p text pattern row

-- The row has an entry for each place, and an entry in front of a `%` holds behind it too.
abbrev IsRow : List ℕ → List Bool → Type 0
IsRow pattern [] = ⊥
IsRow [] (r ∷ row) = Unit
IsRow (p ∷ pattern) (r ∷ row) =
    (((p == percent) && r) ≡ true → get_or row 0 false ≡ true) × IsRow pattern row

matches-percent :
    (text pattern : List ℕ) (p : ℕ)
    → (p == percent) ≡ true
    → matches text pattern ≡ true
    → matches text (p ∷ pattern) ≡ true
unfolding matches
matches-percent [] pattern p h m = ground (arith, h, m)
matches-percent (c ∷ text) pattern p h m = ground (arith, h, m)

leads-first :
    (prev p : ℕ) (text pattern : List ℕ) (row : List Bool)
    → (get_or row 0 false && res prev text pattern) ≡ true
    → leads prev text pattern row ≡ true
leads-first prev p text pattern [] h = cc
leads-first prev p text [] (r ∷ row) h = h
leads-first prev p text (q ∷ pattern) (r ∷ row) h = rw h refl

leads-first_row :
    (b : Bool) (prev : ℕ) (text pattern : List ℕ)
    → leads prev text pattern (first_row b pattern) ≡ (b && res prev text pattern)
unfolding first_row
leads-first_row b prev text [] = refl
leads-first_row b prev text (p ∷ pattern) = ground (
  arith,
  leads-first_row (p == percent && b) p text pattern,
  matches-percent text (p ∷ pattern) prev,
)

first_row-IsRow : (b : Bool) (pattern : List ℕ) → IsRow pattern (first_row b pattern)
unfolding first_row
first_row-IsRow b [] = tt
first_row-IsRow b (p ∷ []) = (λ h. h, tt)
first_row-IsRow b (p ∷ q ∷ pattern) = (λ h. h, first_row-IsRow (p == percent && b) (q ∷ pattern))

leads-nil :
    (prev : ℕ) (pattern : List ℕ) (row : List Bool)
    → IsRow pattern row
    → leads prev [] pattern row ≡ get_or row (length pattern) false
unfolding matches
leads-nil prev pattern [] h = elim h [ ]
leads-nil prev [] (r ∷ row) h = ground arith
leads-nil prev (p ∷ pattern) (r ∷ row) h =
    ground (arith, leads-nil p pattern row h.1, leads-first p p [] pattern row, h.0)

next_row-IsRow :
    (c : ℕ) (pattern : List ℕ) (left : Bool) (above : List Bool)
    → IsRow pattern above
    → IsRow pattern (next_row c pattern left above)
unfolding next_row
next_row-IsRow c pattern left [] h = elim h [ ]
next_row-IsRow c [] left (r ∷ above) h = tt
next_row-IsRow c (p ∷ []) left (r ∷ above) h = (λ e. ground (arith, e), tt)
next_row-IsRow c (p ∷ q ∷ pattern) left (r ∷ []) h = elim h.1 [ ]
next_row-IsRow c (p ∷ q ∷ pattern) left (r ∷ s ∷ above) h =
    (λ e. ground (arith, e), next_row-IsRow c (q ∷ pattern) (cell c p left s r) (s ∷ above) h.1)

-- One place of a row, by the matches of the rest of the text (`t`) and of the text with the character
-- (`c`), with the pattern behind the place (`ps`), with its next piece (`p`), and with the one before too.
place :
    (is_p hit is_prev left r s t_ps t_p t_prev c_ps c_p c_prev later : Bool)
    → (c_p ≡ (if is_p then c_ps || t_p else hit && t_ps))
    → (is_prev ≡ true → c_prev ≡ (c_p || t_prev))
    → (is_prev ≡ true → t_p ≡ true → t_prev ≡ true)
    → ((s && (if is_p then c_p else c_ps)) ≡ true → later ≡ true)
    → ((is_p && r) ≡ true → s ≡ true)
    → ((is_prev && r) ≡ true → left ≡ true)
    → ((left && (if is_prev then t_prev else t_p))
        || (((if is_p then left || s else hit && r) && (if is_p then t_p else t_ps)) || later))
      ≡ ((left && (if is_prev then t_prev else t_p))
          || ((r && (if is_prev then c_prev else c_p)) || later))
place true hit is_prev left r s t_ps t_p t_prev c_ps c_p c_prev later a b d e f g =
    ground (arith, a, b, d, e, f, g)
place false hit is_prev left r s t_ps t_p t_prev c_ps c_p c_prev later a b d e f g =
    ground (arith, a, b, d, e, f, g)

matches-taken :
    (c prev : ℕ) (text pattern : List ℕ)
    → (prev == percent) ≡ true
    → matches (c ∷ text) (prev ∷ pattern)
      ≡ (matches (c ∷ text) pattern || matches text (prev ∷ pattern))
unfolding matches
matches-taken c prev text pattern h = rw h refl

leads-nil_row :
    (c prev : ℕ) (text : List ℕ) (left r : Bool)
    → (((prev == percent) && r) ≡ true → left ≡ true)
    → (left && res prev text []) ≡ ((left && res prev text []) || (r && res prev (c ∷ text) []))
unfolding matches
leads-nil_row c prev text left r own = ground (arith, own)

cell-closed : (c p : ℕ) (left s r : Bool) → ((p == percent) && s) ≡ true → cell c p left s r ≡ true
cell-closed c p left s r h = ground (arith, h)

-- One character: the next row leads on as the row above did.
leads-next_row :
    (c prev : ℕ) (text pattern : List ℕ) (left r : Bool) (above : List Bool)
    → IsRow pattern (r ∷ above)
    → (((prev == percent) && r) ≡ true → left ≡ true)
    → leads prev text pattern (next_row c pattern left (r ∷ above))
      ≡ ((left && res prev text pattern) || leads prev (c ∷ text) pattern (r ∷ above))
unfolding next_row matches
leads-next_row c prev text [] left r above h own = leads-nil_row c prev text left r own
leads-next_row c prev text (p ∷ pattern) left r [] h own = elim h.1 [ ]
leads-next_row c prev text (p ∷ pattern) left r (s ∷ above) h own =
    ap (λ x. (left && res prev text (p ∷ pattern)) || x)
      (leads-next_row c p text pattern (cell c p left s r) s above h.1 (cell-closed c p left s r))
    ∙ place (p == percent) (p == underscore || c == p) (prev == percent) left r s
        (matches text pattern) (matches text (p ∷ pattern)) (matches text (prev ∷ p ∷ pattern))
        (matches (c ∷ text) pattern) (matches (c ∷ text) (p ∷ pattern))
        (matches (c ∷ text) (prev ∷ p ∷ pattern)) (leads p (c ∷ text) pattern (s ∷ above)) refl
        (matches-taken c prev text (p ∷ pattern)) (matches-percent text (p ∷ pattern) prev)
        (leads-first p p (c ∷ text) pattern (s ∷ above)) h.0 own

leads-rows :
    (prev : ℕ) (text pattern : List ℕ) (row : List Bool)
    → (prev == percent) ≡ false
    → IsRow pattern row
    → get_or (rows text pattern row) (length pattern) false ≡ leads prev text pattern row
unfolding rows
leads-rows prev text pattern [] plain h = elim h [ ]
leads-rows prev [] pattern (r ∷ row) plain h = sym (leads-nil prev pattern (r ∷ row) h)
leads-rows prev (c ∷ text) pattern (r ∷ row) plain h =
    leads-rows prev text pattern (next_row c pattern false (r ∷ row)) plain
      (next_row-IsRow c pattern false (r ∷ row) h)
    ∙ leads-next_row c prev text pattern false r row h (λ e. ground (arith, e, plain))

-- The table of `LIKE` computes the recursive definition of a match, for any text and pattern.
pub sql_like-matches : (text pattern : List ℕ) → sql_like text pattern ≡ matches text pattern
unfolding sql_like
sql_like-matches text pattern =
    leads-rows 0 text pattern (first_row true pattern) refl (first_row-IsRow true pattern)
    ∙ leads-first_row true 0 text pattern
