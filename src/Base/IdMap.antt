-- ===== src/Base/IdMap.antt =====
-- `BTreeMap<u64, V>` as a list of entries in ascending order of the keys.
use Prim.Native.Nat.{ℕ}
use mathlib.Core.Path.{◌≡◌, refl}
use mathlib.Core.Bool.{Bool, true, false}
use mathlib.Core.Option.{Option, none, some}
use mathlib.Core.List.{List, [], ◌∷◌}
use native.Mathlib.Omega.{arith}
use noe_db.Base.Tests.{if◌then◌else◌, ltb, ◌==◌}

abbrev pub IdMap {ℓ} : Type ℓ → Type ℓ
IdMap V = List (ℕ × V)

-- `BTreeSet<u64>`
abbrev pub IdSet : Type 0
IdSet = IdMap Unit

module _ {ℓ} {V : Type ℓ} where
  unfoldable pub lookup_id : ℕ → IdMap V → Option V
  lookup_id k [] = none
  lookup_id k ((j, v) ∷ m) = if k == j then some v else lookup_id k m

  unfoldable pub insert_id : ℕ → V → IdMap V → IdMap V
  insert_id k v [] = (k, v) ∷ []
  insert_id k v ((j, w) ∷ m) =
      let rest = insert_id k v m in
      if ltb k j then (k, v) ∷ (j, w) ∷ m else if k == j then (k, v) ∷ m else (j, w) ∷ rest

  unfoldable pub remove_id : ℕ → IdMap V → IdMap V
  remove_id k [] = []
  remove_id k ((j, v) ∷ m) = let rest = remove_id k m in if k == j then rest else (j, v) ∷ rest

  pub lookup-insert_id :
      (k j : ℕ) (v : V) (m : IdMap V)
      → lookup_id j (insert_id k v m) ≡ (if j == k then some v else lookup_id j m)
  unfolding lookup_id insert_id
  lookup-insert_id k j v [] = refl
  lookup-insert_id k j v ((i, w) ∷ m) = ground (arith, lookup-insert_id k j v m)

  pub lookup-remove_id :
      (k j : ℕ) (m : IdMap V)
      → lookup_id j (remove_id k m) ≡ (if j == k then none else lookup_id j m)
  unfolding lookup_id remove_id
  lookup-remove_id k j [] = ground arith
  lookup-remove_id k j ((i, w) ∷ m) = ground (arith, lookup-remove_id k j m)

  unfoldable pub contains_id : ℕ → IdMap V → Bool
  unfolding lookup_id
  contains_id k m = elim (lookup_id k m) [ none ↦ false | some v ↦ true ]
