-- ===== src/Base/ByteMap.antt =====
-- `BTreeMap<Vec<u8>, V>` as a list of entries in ascending order of the keys.
pub mod Sorted
use Prim.Native.Nat.Ordering.{lt, eq, gt}
use mathlib.Core.Path.{◌≡◌, refl}
use mathlib.Core.Bool.{Bool, ◌&&◌, not}
use mathlib.Core.Option.{Option, none, some}
use mathlib.Core.List.{List, [], ◌∷◌}
use native.Mathlib.Omega.{arith}
use noe_db.Base.Tests.{if◌then◌else◌}
use noe_db.Base.Bytes.{Bytes, cmp_bytes, is_eq, is_lt, is_gt, cmp_bytes_refl, eq_of_cmp_bytes}

abbrev pub ByteMap {ℓ} : Type ℓ → Type ℓ
ByteMap V = List (Bytes × V)

-- The key lies in `[start, end)`.
abbrev pub in_range : Bytes → Bytes → Bytes → Bool
in_range start end k = not (is_gt (cmp_bytes start k)) && is_lt (cmp_bytes k end)

module _ {ℓ} {V : Type ℓ} where
  unfoldable pub lookup : Bytes → ByteMap V → Option V
  lookup k [] = none
  lookup k ((j, v) ∷ m) = if is_eq (cmp_bytes k j) then some v else lookup k m

  unfoldable pub insert : Bytes → V → ByteMap V → ByteMap V
  insert k v [] = (k, v) ∷ []
  insert k v ((j, w) ∷ m) = elim (cmp_bytes k j) [
    | lt ↦ (k, v) ∷ (j, w) ∷ m
    | eq ↦ (k, v) ∷ m
    | gt ↦ (j, w) ∷ insert k v m
  ]

  unfoldable pub remove : Bytes → ByteMap V → ByteMap V
  remove k [] = []
  remove k ((j, v) ∷ m) =
      let rest = remove k m in if is_eq (cmp_bytes k j) then rest else (j, v) ∷ rest

  -- `range((Included(start), Excluded(end)))`, where it does not panic
  unfoldable pub range : Bytes → Bytes → ByteMap V → ByteMap V
  range start end [] = []
  range start end ((j, v) ∷ m) =
      let rest = range start end m in if in_range start end j then (j, v) ∷ rest else rest

  pub lookup-insert :
      (k j : Bytes) (v : V) (m : ByteMap V)
      → lookup j (insert k v m) ≡ (if is_eq (cmp_bytes j k) then some v else lookup j m)
  unfolding lookup insert
  lookup-insert k j v [] = refl
  lookup-insert k j v ((i, w) ∷ m) = ground (
    arith,
    lookup-insert k j v m,
    eq_of_cmp_bytes k i,
    eq_of_cmp_bytes j k,
    eq_of_cmp_bytes j i,
    cmp_bytes_refl k,
    cmp_bytes_refl j,
  )

  pub lookup-remove :
      (k j : Bytes) (m : ByteMap V)
      → lookup j (remove k m) ≡ (if is_eq (cmp_bytes j k) then none else lookup j m)
  unfolding lookup remove
  lookup-remove k j [] = ground arith
  lookup-remove k j ((i, w) ∷ m) = ground (
    arith,
    lookup-remove k j m,
    eq_of_cmp_bytes k i,
    eq_of_cmp_bytes j k,
    eq_of_cmp_bytes j i,
    cmp_bytes_refl k,
    cmp_bytes_refl j,
  )
