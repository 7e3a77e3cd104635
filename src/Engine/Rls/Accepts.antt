-- ===== src/Engine/Rls/Accepts.antt =====
-- crates/noedb-engine/src/rls.rs: the rows that a statement accepts under row-level security.
use noe_db.Base.{
  true, false, List, [], ◌∷◌, All, Option, none, some, ◌≡◌, refl, arith, if◌then◌else◌, subst,
}
use noe_db.Base.Bytes.{Bytes}
use noe_db.Base.Text.{to_ascii_lowercase}
use noe_db.Sql.Ast.{Parts, Expr, and_op}
use noe_db.Planner.Value.{
  Value, Row, Std, ExecResult, ok, err, panic, ◌>>=◌, value_null, value_bool,
}
use noe_db.Planner.Operators.{eval_binary, and_values}
use noe_db.Planner.Eval.{eval_expr, eval_predicate, truth}
use noe_db.Engine.Rls.{
  Policy, RlsCatalog, from_table, from_subquery, Statement, select, update, delete, other_statement,
  is_enabled, policies_of, and_expr, materialize_session, merge_where, combine, policy_predicate,
  with_predicate, apply_rls,
}

module _ {P : Parts} where
  -- The table whose rows a statement reads or changes first.
  abbrev pub table_of : {Other : Type 0} → Statement P Other → Option Bytes
  table_of (select (some (from_table t)) w rest) = some t
  table_of (update t w rest) = some t
  table_of (delete t w) = some t
  table_of _ = none

  abbrev pub where_of : {Other : Type 0} → Statement P Other → Option (Expr P)
  where_of (select from w rest) = w
  where_of (update t w rest) = w
  where_of (delete t w) = w
  where_of (other_statement rest) = none

module _ {P : Parts} (std : Std P) (row : Row P) where
  -- A row passes a `WHERE` that is not there, or whose condition evaluates to true.
  abbrev pub Passes : Option (Expr P) → Type 0
  Passes none = Unit {0}
  Passes (some e) = eval_predicate std e row ≡ ok true

  and_true :
      (l r : ExecResult (Value P))
      → (eval_binary std and_op l r >>= truth std) ≡ ok true
      → ((l >>= truth std) ≡ ok true) × ((r >>= truth std) ≡ ok true)
  unfolding eval_binary and_values
  and_true (err e) r h = cc
  and_true panic r h = cc
  and_true (ok (value_bool true)) r h = (refl, h)
  and_true (ok (value_bool false)) r h = cc
  and_true (ok value_null) r h = ground arith
  and_true (ok v) r h = cc

  Passes-and : (e f : Expr P) → Passes (some (and_expr e f)) → Passes (some e) × Passes (some f)
  unfolding eval_predicate eval_expr
  Passes-and e f h = and_true (eval_expr std e row) (eval_expr std f row) h

  Passes-merge_where :
      (w : Option (Expr P)) (e : Expr P) → Passes (merge_where w e) → Passes w × Passes (some e)
  Passes-merge_where none e h = (tt, h)
  Passes-merge_where (some w) e h = Passes-and w e h

  -- The row satisfies the conditions of the policies for a role.
  abbrev pub Satisfies : Bytes → List (Policy P) → Type 0
  Satisfies role ps = All (λ p. Passes (some (materialize_session p.using_expr role))) ps

  combine-Satisfies :
      (combined : Option (Expr P)) (ps : List (Policy P)) (role : Bytes)
      → Passes (combine combined ps role)
      → Passes combined × Satisfies role ps
  unfolding combine
  combine-Satisfies combined [] role h = (h, tt)
  combine-Satisfies combined (p ∷ ps) role h =
      let e = materialize_session p.using_expr role in
      let (merged, others) = combine-Satisfies (merge_where combined e) ps role h in
      let (before, this) = Passes-merge_where combined e merged in (before, (this, others))

  Passes-with_predicate :
      (w pred : Option (Expr P)) → Passes (with_predicate w pred) → Passes w × Passes pred
  Passes-with_predicate w none h = (h, tt)
  Passes-with_predicate w (some e) h = Passes-merge_where w e h

  predicate-Satisfies :
      (c : RlsCatalog P) (table role : Bytes) (w : Option (Expr P))
      → is_enabled c table ≡ true
      → Passes (with_predicate w (policy_predicate c table role))
      → Passes w × Satisfies role (policies_of c.policies (to_ascii_lowercase table))
  unfolding policy_predicate
  predicate-Satisfies c table role w on h =
      let (before, pred) = Passes-with_predicate w (policy_predicate c table role) h in
      let combined =
        subst
          (λ b. Passes (
            if b
            then combine none (policies_of c.policies (to_ascii_lowercase table)) role
            else none))
          on pred in
      (
        before,
        (combine-Satisfies none (policies_of c.policies (to_ascii_lowercase table)) role
            combined).1,
      )

  for_table :
      (t : Bytes) (w : Option (Expr P)) (c : RlsCatalog P) (table role : Bytes)
      → some t ≡ some table
      → is_enabled c table ≡ true
      → Passes (with_predicate w (policy_predicate c t role))
      → Passes w × Satisfies role (policies_of c.policies (to_ascii_lowercase table))
  for_table t w c table role same on h =
      let eq : t ≡ table = cc in
      predicate-Satisfies c table role w on
        (subst (λ k. Passes (with_predicate w (policy_predicate c k role))) eq h)

  -- Under row-level security, a row that an `UPDATE`, a `DELETE` or a `SELECT` from a table with
  -- security still accepts is one that its own `WHERE` accepts and that satisfies the conditions of
  -- all policies of that table for the role, whatever the conditions are.
  pub apply_rls-Satisfies :
      {Other : Type 0} (stmt : Statement P Other) (c : RlsCatalog P) (table role : Bytes)
      → table_of stmt ≡ some table
      → is_enabled c table ≡ true
      → Passes (where_of (apply_rls stmt c role))
      → Passes (where_of stmt) × Satisfies role (policies_of c.policies (to_ascii_lowercase table))
  unfolding apply_rls
  apply_rls-Satisfies (select none w rest) c table role of on h = cc
  apply_rls-Satisfies (select (some (from_table t)) w rest) c table role of on h =
      for_table t w c table role of on h
  apply_rls-Satisfies (select (some (from_subquery q alias)) w rest) c table role of on h = cc
  apply_rls-Satisfies (update t w rest) c table role of on h = for_table t w c table role of on h
  apply_rls-Satisfies (delete t w) c table role of on h = for_table t w c table role of on h
  apply_rls-Satisfies (other_statement rest) c table role of on h = cc
