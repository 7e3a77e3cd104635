-- ===== src/Planner/Row/Related.antt =====
-- crates/noedb-planner/src/eval.rs: a name refers to cells at the same place in rows of the same names.
use noe_db.Base.{
  Bool, true, false, List, [], ◌∷◌, Option, none, some, ◌≡◌, refl, if◌then◌else◌, subst,
}
use noe_db.Base.Bytes.{Bytes}
use noe_db.Base.Text.{eq_bytes}
use noe_db.Sql.Ast.{ColumnRef, named_column, star_column, qualified_star}
use noe_db.Planner.Value.{ok, err, ExecResult, ok_or, unknown_column, ExecError}
use noe_db.Planner.Row.{
  qualified, bare_name, is_bare, find_cell, bare_cells, only_one, or_else, resolve,
}
use noe_db.Planner.Cast.Types.{ok_injective}

module _ {A B : Type 0} (R : A → B → Type 0) where
  -- The names of the two rows are the same, and their cells are related.
  pub data Related : List (Bytes × A) → List (Bytes × B) → Type 0 where
    no_cells : Related [] []
    a_cell :
        {n : Bytes} {a : A} {b : B} {xs : List (Bytes × A)} {ys : List (Bytes × B)}
        → R a b
        → Related xs ys
        → Related ((n, a) ∷ xs) ((n, b) ∷ ys)

  data Both : Option A → Option B → Type 0 where
    both_none : Both none none
    both_some : {a : A} {b : B} → R a b → Both (some a) (some b)

  data Lists : List A → List B → Type 0 where
    both_nil : Lists [] []
    both_cons :
        {a : A} {b : B} {xs : List A} {ys : List B} → R a b → Lists xs ys → Lists (a ∷ xs) (b ∷ ys)

  -- The same outcome, up to the relation.
  data Same : ExecResult A → ExecResult B → Type 0 where
    same_ok : {a : A} {b : B} → R a b → Same (ok a) (ok b)
    same_err : {e : ExecError} → Same (err e) (err e)

  Both-if :
      (t : Bool) {x y : Option A} {x' y' : Option B}
      → Both x x'
      → Both y y'
      → Both (if t then x else y) (if t then x' else y')
  Both-if true h k = h
  Both-if false h k = k

  Lists-if :
      (t : Bool) {x y : List A} {x' y' : List B}
      → Lists x x'
      → Lists y y'
      → Lists (if t then x else y) (if t then x' else y')
  Lists-if true h k = h
  Lists-if false h k = k

  find_cell-Both :
      (name : Bytes) {xs : List (Bytes × A)} {ys : List (Bytes × B)}
      → Related xs ys
      → Both (find_cell name xs) (find_cell name ys)
  unfolding find_cell
  find_cell-Both name no_cells = both_none
  find_cell-Both name (a_cell {n = n} r rest) =
      Both-if (eq_bytes n name) (both_some r) (find_cell-Both name rest)

  bare_cells-Lists :
      (name : Bytes) {xs : List (Bytes × A)} {ys : List (Bytes × B)}
      → Related xs ys
      → Lists (bare_cells name xs) (bare_cells name ys)
  unfolding bare_cells
  bare_cells-Lists name no_cells = both_nil
  bare_cells-Lists name (a_cell {n = n} r rest) =
      let others = bare_cells-Lists name rest in
      Lists-if (is_bare (bare_name n) name) (both_cons r others) others

  only_one-Same :
      (name : Bytes) {xs : List A} {ys : List B}
      → Lists xs ys
      → Same (only_one name xs) (only_one name ys)
  only_one-Same name both_nil = same_err
  only_one-Same name (both_cons r both_nil) = same_ok r
  only_one-Same name (both_cons r (both_cons s rest)) = same_err

  ok_or-Same :
      (e : ExecError) {x : Option A} {y : Option B} → Both x y → Same (ok_or e x) (ok_or e y)
  ok_or-Same e both_none = same_err
  ok_or-Same e (both_some r) = same_ok r

  or_else-Same :
      {x : Option A} {y : Option B} {r : ExecResult A} {s : ExecResult B}
      → Both x y
      → Same r s
      → Same (or_else x r) (or_else y s)
  or_else-Same both_none same = same
  or_else-Same (both_some r) same = same_ok r

  resolve-Same :
      (c : ColumnRef) {xs : List (Bytes × A)} {ys : List (Bytes × B)}
      → Related xs ys
      → Same (resolve c xs) (resolve c ys)
  unfolding resolve
  resolve-Same (named_column (some t) column) h =
      or_else-Same (find_cell-Both (qualified t column) h)
        (ok_or-Same (unknown_column (qualified t column)) (find_cell-Both column h))
  resolve-Same (named_column none column) h =
      or_else-Same (find_cell-Both column h) (only_one-Same column (bare_cells-Lists column h))
  resolve-Same star_column h = same_err
  resolve-Same (qualified_star t) h = same_err

  ok_of_Same :
      {r : ExecResult A} {s : ExecResult B} {b : B}
      → Same r s
      → s ≡ ok b
      → (a : A) × (r ≡ ok a) × R a b
  ok_of_Same (same_ok {a = a} h) e = (a, refl, subst (λ y. R a y) (ok_injective e) h)
  ok_of_Same same_err e = cc

  pub resolve-Related :
      (c : ColumnRef) {xs : List (Bytes × A)} {ys : List (Bytes × B)} {b : B}
      → Related xs ys
      → resolve c ys ≡ ok b
      → (a : A) × (resolve c xs ≡ ok a) × R a b
  resolve-Related c h e = ok_of_Same (resolve-Same c h) e
