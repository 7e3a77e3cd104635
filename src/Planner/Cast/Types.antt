-- ===== src/Planner/Cast/Types.antt =====
-- crates/noedb-planner/src/cast.rs: the types of the results of a `CAST`.
use noe_db.Base.{
  ℕ, Bool, true, false, List, [], ◌∷◌, Option, none, some, if◌then◌else◌, length, ◌≡◌, refl, arith,
  inl, inr, Bool-cases, ◌==◌, ==_iff, subst, ◌≢◌,
}
use noe_db.Base.Bytes.{Bytes}
use noe_db.Base.Text.{codes, to_ascii_uppercase, one_of}
use noe_db.Sql.Ast.{
  Parts, SqlType, sql_int, sql_boolean, sql_float, sql_text, sql_date, sql_timestamp, sql_varchar,
  sql_vector, sql_named,
}
use noe_db.Planner.Value.{
  Value, Std, ExecResult, ok, err, panic, ◌>>=◌, type_mismatch, value_null, value_integer,
  value_float, value_bytes, value_bool, value_date, value_timestamp, value_vector, ExecError,
}
use noe_db.Planner.Cast.{
  cast_value, cast_named, cast_known, cast_to_int, cast_to_float, cast_to_bool, cast_to_date,
  cast_to_timestamp, cast_to_vector, int_of, float_of, bool_of, date_of, timestamp_of, vector_of,
  cast_to_text, parse_int_bytes, parse_float_bytes, parse_vector_literal, value_to_string,
  parse_parts, parse_bool_bytes, parse_timestamp_bytes, trimmed, parts_of,
}

-- The kinds of the values that are not null.
pub data Kind : Type 0 where
  integer_kind float_kind bytes_kind bool_kind date_kind timestamp_kind : Kind
  vector_kind : ℕ → Kind

abbrev named_kind : Bytes → Option Kind
named_kind name =
    if one_of (codes "INT" ∷ codes "INTEGER" ∷ codes "BIGINT" ∷ []) name
    then some integer_kind
    else if one_of (codes "FLOAT" ∷ codes "REAL" ∷ codes "DOUBLE" ∷ []) name
    then some float_kind
    else if one_of (codes "BOOLEAN" ∷ codes "BOOL" ∷ []) name
    then some bool_kind
    else if one_of (codes "TEXT" ∷ []) name
    then some bytes_kind
    else if one_of (codes "DATE" ∷ []) name
    then some date_kind
    else if one_of (codes "TIMESTAMP" ∷ codes "TIMESTAMPTZ" ∷ []) name
    then some timestamp_kind
    else none

-- The kind of a type's values, if the type is known.
unfoldable pub kind_of : SqlType → Option Kind
kind_of sql_int = some integer_kind
kind_of sql_float = some float_kind
kind_of sql_boolean = some bool_kind
kind_of (sql_varchar n) = some bytes_kind
kind_of sql_text = some bytes_kind
kind_of sql_date = some date_kind
kind_of sql_timestamp = some timestamp_kind
kind_of (sql_vector dim) = some (vector_kind dim)
kind_of (sql_named name) = named_kind (to_ascii_uppercase name)

module _ {P : Parts} where
  pub data HasKind : Value P → Kind → Type 0 where
    an_integer : {n : _} → HasKind (value_integer n) integer_kind
    a_float : {f : _} → HasKind (value_float f) float_kind
    a_string : {b : _} → HasKind (value_bytes b) bytes_kind
    a_bool : {b : _} → HasKind (value_bool b) bool_kind
    a_date : {b : _} → HasKind (value_date b) date_kind
    a_timestamp : {ts : _} → HasKind (value_timestamp ts) timestamp_kind
    a_vector : {v : _} {dim : ℕ} → length v ≡ dim → HasKind (value_vector v) (vector_kind dim)

pub ok_injective {ℓ} : {A : Type ℓ} {a b : A} → ok a ≡ ok b → a ≡ b
ok_injective h = cc

bind-panic :
    {A B : Type 0} (m : ExecResult A) (f : A → ExecResult B)
    → m ≢ panic
    → ((a : A) → f a ≢ panic)
    → (m >>= f) ≢ panic
bind-panic (ok a) f h k = k a
bind-panic (err e) f h k = λ p. cc
bind-panic panic f h k = λ p. h refl

module _ {P : Parts} where
  -- A result of the kind `o`, where only the kind of dates leads to a panic.
  abbrev Agrees : Option Kind → ExecResult (Value P) → Type 0
  Agrees o r =
      ((w : Value P) → r ≡ ok w → (k : Kind) × (o ≡ some k) × HasKind w k)
      × (r ≡ panic → o ≡ some date_kind)

  Agrees-err : (o : Option Kind) (e : ExecError) → Agrees o (err e)
  Agrees-err o e = ((λ w h. cc), (λ h. cc))

  Agrees-if :
      (b : Bool) {o o' : Option Kind} {r r' : ExecResult (Value P)}
      → Agrees o r
      → Agrees o' r'
      → Agrees (if b then o else o') (if b then r else r')
  Agrees-if true h h' = h
  Agrees-if false h h' = h'

  -- A conversion that ends by a constructor of values.
  Agrees-bind :
      {A : Type 0} (m : ExecResult A) (make : A → Value P) (k : Kind)
      → ((a : A) → HasKind (make a) k)
      → (m ≡ panic → some k ≡ some date_kind)
      → Agrees (some k) (m >>= λ a. ok (make a))
  Agrees-bind (ok a) make k typed safe =
      ((λ w h. (k, refl, subst (λ x. HasKind x k) (ok_injective h) (typed a))), (λ h. cc))
  Agrees-bind (err e) make k typed safe = Agrees-err (some k) e
  Agrees-bind panic make k typed safe = ((λ w h. cc), (λ h. safe refl))

module _ {P : Parts} (std : Std P) where
  int_of-panic : (v : Value P) → int_of std v ≡ panic → v ≡ value_null
  unfolding parse_int_bytes
  int_of-panic value_null h = refl
  int_of-panic (value_bool true) h = cc
  int_of-panic (value_bool false) h = cc
  int_of-panic _ h = ground arith

  float_of-panic : (v : Value P) → float_of std v ≡ panic → v ≡ value_null
  unfolding parse_float_bytes
  float_of-panic value_null h = refl
  float_of-panic _ h = ground arith

  bool_of-panic : (v : Value P) → bool_of std v ≡ panic → v ≡ value_null
  unfolding parse_bool_bytes
  bool_of-panic value_null h = refl
  bool_of-panic _ h = ground arith

  timestamp_of-panic : (v : Value P) → timestamp_of std v ≡ panic → v ≡ value_null
  unfolding parse_timestamp_bytes
  timestamp_of-panic value_null h = refl
  timestamp_of-panic _ h = ground arith

  cast_to_int-Agrees :
      (v : Value P) → v ≢ value_null → Agrees (some integer_kind) (cast_to_int std v)
  unfolding cast_to_int
  cast_to_int-Agrees v h =
      Agrees-bind (int_of std v) value_integer integer_kind (λ a. an_integer)
        (λ p. absurd (h (int_of-panic v p)))

  cast_to_float-Agrees :
      (v : Value P) → v ≢ value_null → Agrees (some float_kind) (cast_to_float std v)
  unfolding cast_to_float
  cast_to_float-Agrees v h =
      Agrees-bind (float_of std v) value_float float_kind (λ a. a_float)
        (λ p. absurd (h (float_of-panic v p)))

  cast_to_bool-Agrees :
      (v : Value P) → v ≢ value_null → Agrees (some bool_kind) (cast_to_bool std v)
  unfolding cast_to_bool
  cast_to_bool-Agrees v h =
      Agrees-bind (bool_of std v) value_bool bool_kind (λ a. a_bool)
        (λ p. absurd (h (bool_of-panic v p)))

  cast_to_timestamp-Agrees :
      (v : Value P) → v ≢ value_null → Agrees (some timestamp_kind) (cast_to_timestamp std v)
  unfolding cast_to_timestamp
  cast_to_timestamp-Agrees v h =
      Agrees-bind (timestamp_of std v) value_timestamp timestamp_kind (λ a. a_timestamp)
        (λ p. absurd (h (timestamp_of-panic v p)))

  cast_to_date-Agrees : (v : Value P) → Agrees (some date_kind) (cast_to_date std v)
  unfolding cast_to_date
  cast_to_date-Agrees v = Agrees-bind (date_of std v) value_date date_kind (λ a. a_date) (λ p. refl)

  cast_to_text-Agrees : (v : Value P) → Agrees (some bytes_kind) (cast_to_text std v)
  cast_to_text-Agrees v =
      Agrees-bind (ok (value_to_string std v)) value_bytes bytes_kind (λ a. a_string) (λ p. cc)

  parse_parts-panic : (ps : List Bytes) → parse_parts std ps ≢ panic
  unfolding parse_parts
  parse_parts-panic [] h = cc
  parse_parts-panic (p ∷ ps) h = ground (arith, parse_parts-panic ps)

  trimmed-panic : (b : Bytes) → trimmed std b ≢ panic
  trimmed-panic b h = ground arith

  if-panic :
      (b : Bool) (floats : List P.Float32) → (if b then ok floats else err type_mismatch) ≢ panic
  if-panic true floats h = cc
  if-panic false floats h = cc

  vector_of-panic : (v : Value P) (dim : ℕ) → vector_of std v dim ≢ panic
  unfolding parse_vector_literal
  vector_of-panic (value_bytes b) dim =
      bind-panic (trimmed std b) _ (λ h. trimmed-panic b h)
        (λ s.
          bind-panic (parse_parts std (parts_of s)) _ (parse_parts-panic (parts_of s))
            (λ floats. if-panic (length floats == dim) floats))
  vector_of-panic _ dim = λ h. cc

  sized-Agrees :
      (r : ExecResult (List P.Float32)) (dim : ℕ)
      → r ≢ panic
      → Agrees {P = P} (some (vector_kind dim)) (
          r >>= λ floats.
          if length floats == dim then ok (value_vector floats) else err type_mismatch)
  sized-Agrees (ok floats) dim h = elim (Bool-cases (length floats == dim)) [
    | inl same ↦ rw same (
      (λ w e. (
        vector_kind dim,
        refl,
        subst (λ x. HasKind x (vector_kind dim)) (ok_injective e)
            (a_vector ((==_iff (length floats) dim).0 same)),
      )),
      (λ p. cc),
    )
    | inr other ↦ rw other (Agrees-err (some (vector_kind dim)) type_mismatch)
  ]
  sized-Agrees (err e) dim h = Agrees-err (some (vector_kind dim)) e
  sized-Agrees panic dim h = absurd (h refl)

  cast_to_vector-Agrees :
      (v : Value P) (dim : ℕ) → Agrees (some (vector_kind dim)) (cast_to_vector std v dim)
  unfolding cast_to_vector
  cast_to_vector-Agrees v dim = sized-Agrees (vector_of std v dim) dim (vector_of-panic v dim)

  cast_named-Agrees :
      (v : Value P) (name : Bytes)
      → v ≢ value_null
      → Agrees (named_kind name) (cast_named std v name)
  cast_named-Agrees v name h = Agrees-if _ (cast_to_int-Agrees v h) (
      Agrees-if _ (cast_to_float-Agrees v h) (
        Agrees-if _ (cast_to_bool-Agrees v h) (
          Agrees-if _ (cast_to_text-Agrees v) (
            Agrees-if _ (cast_to_date-Agrees v)
              (Agrees-if _ (cast_to_timestamp-Agrees v h) (Agrees-err none type_mismatch))))))

  cast_known-Agrees :
      (v : Value P) (ty : SqlType) → v ≢ value_null → Agrees (kind_of ty) (cast_known std v ty)
  unfolding kind_of
  cast_known-Agrees v sql_int h = cast_to_int-Agrees v h
  cast_known-Agrees v sql_float h = cast_to_float-Agrees v h
  cast_known-Agrees v sql_boolean h = cast_to_bool-Agrees v h
  cast_known-Agrees v (sql_varchar n) h = cast_to_text-Agrees v
  cast_known-Agrees v sql_text h = cast_to_text-Agrees v
  cast_known-Agrees v sql_date h = cast_to_date-Agrees v
  cast_known-Agrees v sql_timestamp h = cast_to_timestamp-Agrees v h
  cast_known-Agrees v (sql_vector dim) h = cast_to_vector-Agrees v dim
  cast_known-Agrees v (sql_named name) h = cast_named-Agrees v (to_ascii_uppercase name) h

  cast_value-Agrees :
      (v : Value P) (ty : SqlType) → v ≢ value_null → Agrees (kind_of ty) (cast_value std v ty)
  unfolding cast_value
  cast_value-Agrees value_null ty h = absurd (h refl)
  cast_value-Agrees v ty h = cast_known-Agrees v ty h

  -- A `CAST` of a value that is not null to a value gives one of its target's kind, a vector of the
  -- length asked for; the target is then a type that is known.
  pub cast_value-HasKind :
      (v w : Value P) (ty : SqlType)
      → v ≢ value_null
      → cast_value std v ty ≡ ok w
      → (k : Kind) × (kind_of ty ≡ some k) × HasKind w k
  cast_value-HasKind v w ty h e = (cast_value-Agrees v ty h).0 w e

  -- A `CAST` panics for no target but dates, where the year leaves `i32`.
  pub cast_value-panics :
      (v : Value P) (ty : SqlType)
      → v ≢ value_null
      → cast_value std v ty ≡ panic
      → kind_of ty ≡ some date_kind
  cast_value-panics v ty h e = (cast_value-Agrees v ty h).1 e
