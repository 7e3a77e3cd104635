-- ===== src/Planner/Eval/Typing/Calls.antt =====
-- crates/noedb-planner/src/eval.rs: `BETWEEN`, casts and functions at operands of the right kinds.
use noe_db.Base.{Bool, true, false, ◌≡◌, ◌≢◌, refl, ◌&&◌}
use noe_db.Base.Bytes.{Bytes}
use noe_db.Sql.Ast.{Parts, SqlType, le_op, ge_op}
use noe_db.Planner.Value.{
  Value, Std, ExecResult, ok, value_null, value_integer, value_float, value_bool,
}
use noe_db.Planner.Cast.{
  cast_value, cast_to_int, cast_to_float, cast_to_bool, float_of, bool_of, cast_known, int_of,
}
use noe_db.Planner.Cast.Types.{
  Kind, bool_kind, HasKind, an_integer, a_float, a_string, a_bool, a_date, a_timestamp, a_vector,
}
use noe_db.Planner.Operators.{eval_between, negate_if, between_values}
use noe_db.Planner.Eval.{call_scalar}
use noe_db.Planner.Eval.Typing.{
  Numeric, integers, floats, bools, timestamps, Comparable, FunctionTyped, upper_typed, lower_typed,
  trim_typed, length_typed, abs_float, round_integer, round_float, Castable, to_text, to_varchar,
  to_int, to_float, to_bool,
}
use noe_db.Base.Int.{ℤ}
use noe_db.Planner.Eval.Typing.Operands.{
  Fits, null_fits, value_fits, Yields, truth_value, cmp_values-Comparable,
}

module _ {P : Parts} (std : Std P) where
  eval_between-eq :
      (v lo hi : Value P) (negated : Bool)
      → v ≢ value_null
      → lo ≢ value_null
      → hi ≢ value_null
      → eval_between std v lo hi negated ≡ between_values std v lo hi negated
  unfolding eval_between
  eval_between-eq value_null lo hi negated a b c = absurd (a refl)
  eval_between-eq v value_null hi negated a b c = absurd (b refl)
  eval_between-eq v lo value_null negated a b c = absurd (c refl)
  eval_between-eq v lo hi negated a b c = refl

  eval_between-null_low :
      (v hi : Value P) (negated : Bool)
      → eval_between std v value_null hi negated ≡ ok (value_bool false)
  unfolding eval_between
  eval_between-null_low value_null hi negated = refl
  eval_between-null_low v hi negated = refl

  eval_between-null_high :
      (v lo : Value P) (negated : Bool)
      → eval_between std v lo value_null negated ≡ ok (value_bool false)
  unfolding eval_between
  eval_between-null_high value_null lo negated = refl
  eval_between-null_high v value_null negated = refl
  eval_between-null_high v lo negated = refl

  HasKind-ne-null : {v : Value P} {k : Kind} → HasKind v k → v ≢ value_null
  HasKind-ne-null an_integer h = cc
  HasKind-ne-null a_float h = cc
  HasKind-ne-null a_string h = cc
  HasKind-ne-null a_bool h = cc
  HasKind-ne-null a_date h = cc
  HasKind-ne-null a_timestamp h = cc
  HasKind-ne-null (a_vector e) h = cc

  pub eval_between-Fits :
      {v lo hi : Value P} {k k' j : Kind} (negated : Bool)
      → Comparable k k'
      → Comparable k j
      → Fits v k
      → Fits lo k'
      → Fits hi j
      → Yields (eval_between std v lo hi negated) bool_kind
  unfolding eval_between
  eval_between-Fits negated c d null_fits g h = truth_value std false
  eval_between-Fits {v = v} {hi = hi} negated c d (value_fits f) null_fits h =
      rw (eval_between-null_low v hi negated) (truth_value std false)
  eval_between-Fits {v = v} {lo = lo} negated c d (value_fits f) (value_fits g) null_fits =
      rw (eval_between-null_high v lo negated) (truth_value std false)
  eval_between-Fits {v = v} {lo = lo} {hi = hi} negated c d (value_fits f) (value_fits g)
        (value_fits h) =
      let (x, e) = cmp_values-Comparable std ge_op c f g in
      let (y, e') = cmp_values-Comparable std le_op d f h in
      rw
        (
          eval_between-eq v lo hi negated (HasKind-ne-null f) (HasKind-ne-null g)
              (HasKind-ne-null h),
          e,
          e',
        )
        (truth_value std (negate_if negated (x && y)))

  pub call_scalar-Fits :
      {name : Bytes} {v : Value P} {k j : Kind} (coalesced : ExecResult (Value P))
      → FunctionTyped name k j
      → Fits v k
      → Yields (call_scalar std name (ok v) coalesced) j
  unfolding call_scalar
  call_scalar-Fits coalesced (upper_typed e) null_fits = rw e (value_null, refl, null_fits)
  call_scalar-Fits coalesced (upper_typed e) (value_fits a_string) =
      rw e (_, refl, value_fits a_string)
  call_scalar-Fits coalesced (lower_typed e) null_fits = rw e (value_null, refl, null_fits)
  call_scalar-Fits coalesced (lower_typed e) (value_fits a_string) =
      rw e (_, refl, value_fits a_string)
  call_scalar-Fits coalesced (trim_typed e) null_fits = rw e (value_null, refl, null_fits)
  call_scalar-Fits coalesced (trim_typed e) (value_fits a_string) =
      rw e (_, refl, value_fits a_string)
  call_scalar-Fits coalesced (length_typed e) null_fits = rw e (value_null, refl, null_fits)
  call_scalar-Fits coalesced (length_typed e) (value_fits a_string) =
      rw e (_, refl, value_fits an_integer)
  call_scalar-Fits coalesced (abs_float e) null_fits = rw e (value_null, refl, null_fits)
  call_scalar-Fits coalesced (abs_float e) (value_fits a_float) = rw e (_, refl, value_fits a_float)
  call_scalar-Fits coalesced (round_integer e) null_fits = rw e (value_null, refl, null_fits)
  call_scalar-Fits coalesced (round_integer e) (value_fits an_integer) =
      rw e (_, refl, value_fits an_integer)
  call_scalar-Fits coalesced (round_float e) null_fits = rw e (value_null, refl, null_fits)
  call_scalar-Fits coalesced (round_float e) (value_fits a_float) =
      rw e (_, refl, value_fits a_float)

  int_of-Numeric :
      {v : Value P} {k : Kind} → Numeric k → HasKind v k → (n : ℤ) × (int_of std v ≡ ok n)
  int_of-Numeric integers an_integer = (_, refl)
  int_of-Numeric floats a_float = (_, refl)
  int_of-Numeric bools (a_bool {b = true}) = (_, refl)
  int_of-Numeric bools (a_bool {b = false}) = (_, refl)
  int_of-Numeric timestamps a_timestamp = (_, refl)

  float_of-Numeric :
      {v : Value P} {k : Kind} → Numeric k → HasKind v k → (f : P.Float) × (float_of std v ≡ ok f)
  float_of-Numeric integers an_integer = (_, refl)
  float_of-Numeric floats a_float = (_, refl)
  float_of-Numeric bools a_bool = (_, refl)
  float_of-Numeric timestamps a_timestamp = (_, refl)

  bool_of-Numeric :
      {v : Value P} {k : Kind} → Numeric k → HasKind v k → (b : Bool) × (bool_of std v ≡ ok b)
  bool_of-Numeric integers an_integer = (_, refl)
  bool_of-Numeric floats a_float = (_, refl)
  bool_of-Numeric bools a_bool = (_, refl)
  bool_of-Numeric timestamps a_timestamp = (_, refl)

  cast_value-eq :
      (v : Value P) (ty : SqlType) → v ≢ value_null → cast_value std v ty ≡ cast_known std v ty
  unfolding cast_value
  cast_value-eq value_null ty h = absurd (h refl)
  cast_value-eq v ty h = refl

  cast_known-Fits :
      {v : Value P} {ty : SqlType} {k j : Kind}
      → Castable k ty j
      → HasKind v k
      → Yields (cast_known std v ty) j
  unfolding cast_to_int cast_to_float cast_to_bool
  cast_known-Fits to_text h = (_, refl, value_fits a_string)
  cast_known-Fits to_varchar h = (_, refl, value_fits a_string)
  cast_known-Fits (to_int n) h =
      let (i, e) = int_of-Numeric n h in (value_integer i, rw e, value_fits an_integer)
  cast_known-Fits (to_float n) h =
      let (f, e) = float_of-Numeric n h in (value_float f, rw e, value_fits a_float)
  cast_known-Fits (to_bool n) h =
      let (b, e) = bool_of-Numeric n h in (value_bool b, rw e, value_fits a_bool)

  pub cast_value-Fits :
      {v : Value P} {ty : SqlType} {k j : Kind}
      → Castable k ty j
      → Fits v k
      → Yields (cast_value std v ty) j
  unfolding cast_value
  cast_value-Fits c null_fits = (value_null, refl, null_fits)
  cast_value-Fits {v = v} {ty = ty} c (value_fits h) =
      rw (cast_value-eq v ty (HasKind-ne-null h)) (cast_known-Fits c h)
