-- ===== src/Engine/RlsTests.antt =====
-- Examples, and the theorem of row-level security at a concrete input.
use noe_db.Base.{ℕ, [], ◌∷◌, none, ◌≡◌, refl}
use noe_db.Base.Bytes.{Bytes}
use noe_db.Base.Text.{codes, to_ascii_lowercase}
use noe_db.Sql.Ast.{column, named_column, binary, eq_op, current_user}
use noe_db.Planner.Value.{Row, value_bytes}
use noe_db.Planner.Samples.{parts, std}
use noe_db.Planner.Eval.{eval_predicate}
use noe_db.Engine.Rls.{
  Policy, RlsCatalog, Statement, delete, is_enabled, policies_of, apply_rls, enable, add_policy,
}
use noe_db.Engine.Rls.Accepts.{Passes, Satisfies, where_of, apply_rls-Satisfies}

abbrev notes : Bytes
notes = codes "notes"

abbrev owner : Bytes
owner = codes "owner"

abbrev role : Bytes
role = codes "ann"

-- `USING (owner = CURRENT_USER)` on `notes`
abbrev own_rows : Policy parts
own_rows = record {
  name = codes "own";
  using_expr = binary eq_op (column (named_column none owner)) current_user;
}

abbrev catalog : RlsCatalog parts
catalog = record { enabled = notes ∷ []; policies = (notes, own_rows ∷ []) ∷ [] }

catalog_built :
    add_policy
      (codes "Notes")
      own_rows
      (enable (codes "NOTES") (record { enabled = []; policies = [] }))
    ≡ catalog
unfolding enable add_policy
catalog_built = refl

-- `DELETE FROM notes`
abbrev delete_notes : Statement parts ℕ
delete_notes = delete notes none

abbrev row : Row parts
row = (owner, value_bytes role) ∷ []

row-Passes : Passes std row (where_of (apply_rls delete_notes catalog role))
unfolding apply_rls eval_predicate
row-Passes = refl

apply_rls-Satisfies_example :
    Passes std row (where_of delete_notes)
    × Satisfies std row role (policies_of catalog.policies (to_ascii_lowercase notes))
apply_rls-Satisfies_example =
    apply_rls-Satisfies std row delete_notes catalog notes role refl (unfold is_enabled in refl)
      row-Passes
