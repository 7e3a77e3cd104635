-- ===== src/Engine/Rls.antt =====
-- crates/noedb-engine/src/rls.rs: row-level security. A policy's condition joins the `WHERE` of a
-- statement. Of the statements the fields that the code touches are modelled.
pub mod Accepts
use noe_db.Base.{Bool, true, false, ◌||◌, List, [], ◌∷◌, ◌++◌, Option, none, some, if◌then◌else◌}
use noe_db.Base.Bytes.{Bytes}
use noe_db.Base.Text.{eq_bytes, one_of, to_ascii_lowercase}
use noe_db.Sql.Ast.{
  Parts, Expr, Exprs, literal, literal_string, column, binary, unary, is_null, in_values,
  in_subquery, exists_subquery, scalar_subquery, between, paren, param, current_user, cast_as,
  function, no_exprs, one_more, and_op,
}

module _ (P : Parts) where
  pub record Policy : Type 0 where
    pub name : Bytes
    pub using_expr : Expr P

  -- The set of the tables with security, and the policies of each table.
  pub record RlsCatalog : Type 0 where
    pub enabled : List Bytes
    pub policies : List (Bytes × List Policy)

  pub data FromItem : Type 0 where
    from_table : Bytes → FromItem
    from_subquery : P.SelectStmt → Bytes → FromItem

  -- A `SELECT` with all that is not looked at in `other_clauses`, its joins among that.
  pub data Statement (Other : Type 0) : Type 0 where
    select :
        (from : Option FromItem)
        → (where_clause : Option (Expr P)) → (other_clauses : Other) → Statement Other
    update :
        (table : Bytes)
        → (where_clause : Option (Expr P)) → (other_clauses : Other) → Statement Other
    delete : (table : Bytes) → (where_clause : Option (Expr P)) → Statement Other
    other_statement : Other → Statement Other

module _ {P : Parts} where
  unfoldable pub enable : Bytes → RlsCatalog P → RlsCatalog P
  unfolding to_ascii_lowercase
  enable table c = record c { enabled = to_ascii_lowercase table ∷ c.enabled }

  -- `entry(table).or_default().push(policy)`
  unfoldable pub push_policy :
      Bytes → Policy P → List (Bytes × List (Policy P)) → List (Bytes × List (Policy P))
  unfolding eq_bytes
  push_policy table p [] = (table, p ∷ []) ∷ []
  push_policy table p ((t, ps) ∷ rest) =
      if eq_bytes t table then (t, ps ++ (p ∷ [])) ∷ rest else (t, ps) ∷ push_policy table p rest

  unfoldable pub add_policy : Bytes → Policy P → RlsCatalog P → RlsCatalog P
  unfolding to_ascii_lowercase push_policy
  add_policy table p c = record c { policies = push_policy (to_ascii_lowercase table) p c.policies }

  unfoldable pub is_enabled : RlsCatalog P → Bytes → Bool
  unfolding to_ascii_lowercase one_of
  is_enabled c table = one_of c.enabled (to_ascii_lowercase table)

  unfoldable pub policies_of : List (Bytes × List (Policy P)) → Bytes → List (Policy P)
  unfolding eq_bytes
  policies_of [] table = []
  policies_of ((t, ps) ∷ rest) table = if eq_bytes t table then ps else policies_of rest table

  abbrev pub and_expr : Expr P → Expr P → Expr P
  and_expr left right = binary and_op left right

  -- `CURRENT_USER` becomes the role; calls, casts and subqueries stay as they are.
  unfoldable mutual
    pub materialize_session : Expr P → Bytes → Expr P
    materialize_session current_user role = literal (literal_string role)
    materialize_session (binary op left right) role =
        binary op (materialize_session left role) (materialize_session right role)
    materialize_session (unary op e) role = unary op (materialize_session e role)
    materialize_session (is_null e negated) role = is_null (materialize_session e role) negated
    materialize_session (in_values e values negated) role =
        in_values (materialize_session e role) (materialize_all values role) negated
    materialize_session (between e low high negated) role =
        between (materialize_session e role) (materialize_session low role)
          (materialize_session high role) negated
    materialize_session (paren e) role = paren (materialize_session e role)
    materialize_session e role = e

    pub materialize_all : Exprs P → Bytes → Exprs P
    materialize_all no_exprs role = no_exprs
    materialize_all (one_more e es) role =
        one_more (materialize_session e role) (materialize_all es role)

  abbrev pub merge_where : Option (Expr P) → Expr P → Option (Expr P)
  merge_where none pred = some pred
  merge_where (some e) pred = some (and_expr e pred)

  -- The loop over the policies.
  unfoldable pub combine : Option (Expr P) → List (Policy P) → Bytes → Option (Expr P)
  unfolding materialize_session
  combine combined [] role = combined
  combine combined (p ∷ ps) role =
      combine (merge_where combined (materialize_session p.using_expr role)) ps role

  -- A table without policies has the empty list, which gives no condition either.
  unfoldable pub policy_predicate : RlsCatalog P → Bytes → Bytes → Option (Expr P)
  unfolding is_enabled policies_of combine
  policy_predicate c table role =
      if is_enabled c table
      then combine none (policies_of c.policies (to_ascii_lowercase table)) role
      else none

  abbrev pub with_predicate : Option (Expr P) → Option (Expr P) → Option (Expr P)
  with_predicate where_clause none = where_clause
  with_predicate where_clause (some pred) = merge_where where_clause pred

  unfoldable pub apply_rls :
      {Other : Type 0} → Statement P Other → RlsCatalog P → Bytes → Statement P Other
  unfolding policy_predicate
  apply_rls (select none w rest) c role = select none w rest
  apply_rls (select (some (from_table t)) w rest) c role =
      select (some (from_table t)) (with_predicate w (policy_predicate c t role)) rest
  apply_rls (select (some (from_subquery q alias)) w rest) c role =
      select (some (from_subquery q alias)) w rest
  apply_rls (update t w rest) c role = update t (with_predicate w (policy_predicate c t role)) rest
  apply_rls (delete t w) c role = delete t (with_predicate w (policy_predicate c t role))
  apply_rls (other_statement rest) c role = other_statement rest
