-- ===== src/Engine/Tests.antt =====
-- Examples, and the theorems of the engine at concrete inputs.
use noe_db.Base.{[], ◌∷◌, length, List, ℕ, ◌≤◌}
use noe_db.Engine.StmtCache.{with_capacity}
use noe_db.Engine.StmtCache.Bounds.{
  CacheCall, called_get, called_insert, after_calls, after_calls-bounded,
}

abbrev some_calls : List (CacheCall ℕ)
some_calls =
    called_insert (1 ∷ []) 10
    ∷ called_insert (2 ∷ []) 20
    ∷ called_get (1 ∷ [])
    ∷ called_insert (3 ∷ []) 30
    ∷ []

after_calls-bounded_example : length (after_calls (with_capacity 2) some_calls).entries ≤ 2
after_calls-bounded_example = after_calls-bounded 2 some_calls
