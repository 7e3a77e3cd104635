-- ===== src/Base/ByteMap/Sorted.antt =====
-- The order of the keys of a map.
use Prim.Native.Nat.Ordering.{lt, gt}
use mathlib.Core.Path.{◌≡◌, refl}
use mathlib.Core.Option.{none}
use mathlib.Core.List.{[], ◌∷◌}
use native.Mathlib.Omega.{arith}
use noe_db.Base.Bytes.{Bytes, cmp_bytes, eq_of_cmp_bytes}
use noe_db.Base.ByteMap.{ByteMap, lookup, insert, remove}

pub cmp_bytes_trans : (a b c : Bytes) → cmp_bytes a b ≡ lt → cmp_bytes b c ≡ lt → cmp_bytes a c ≡ lt
unfolding cmp_bytes
cmp_bytes_trans [] [] c h k = cc
cmp_bytes_trans [] (y ∷ b) [] h k = cc
cmp_bytes_trans [] (y ∷ b) (z ∷ c) h k = refl
cmp_bytes_trans (x ∷ a) [] c h k = cc
cmp_bytes_trans (x ∷ a) (y ∷ b) [] h k = cc
cmp_bytes_trans (x ∷ a) (y ∷ b) (z ∷ c) h k = ground (arith, cmp_bytes_trans a b c)

pub cmp_bytes_flip : (a b : Bytes) → cmp_bytes a b ≡ gt → cmp_bytes b a ≡ lt
unfolding cmp_bytes
cmp_bytes_flip [] [] h = cc
cmp_bytes_flip [] (y ∷ b) h = cc
cmp_bytes_flip (x ∷ a) [] h = refl
cmp_bytes_flip (x ∷ a) (y ∷ b) h = ground (arith, cmp_bytes_flip a b)

module _ {ℓ} {V : Type ℓ} where
  abbrev pub AllAbove : Bytes → ByteMap V → Type 0
  AllAbove k [] = Unit
  AllAbove k ((j, v) ∷ m) = (cmp_bytes k j ≡ lt) × AllAbove k m

  abbrev pub IsSorted : ByteMap V → Type 0
  IsSorted [] = Unit
  IsSorted ((j, v) ∷ m) = AllAbove j m × IsSorted m

  pub AllAbove-trans :
      (k j : Bytes) (m : ByteMap V) → cmp_bytes k j ≡ lt → AllAbove j m → AllAbove k m
  AllAbove-trans k j [] h a = tt
  AllAbove-trans k j ((i, v) ∷ m) h a = (cmp_bytes_trans k j i h a.0, AllAbove-trans k j m h a.1)

  pub lookup-AllAbove : (k : Bytes) (m : ByteMap V) → AllAbove k m → lookup k m ≡ none
  unfolding lookup
  lookup-AllAbove k [] a = refl
  lookup-AllAbove k ((j, v) ∷ m) a = ground (arith, lookup-AllAbove k m)

  AllAbove-insert :
      (i k : Bytes) (v : V) (m : ByteMap V)
      → cmp_bytes i k ≡ lt
      → AllAbove i m
      → AllAbove i (insert k v m)
  unfolding insert
  AllAbove-insert i k v [] h a = (h, tt)
  AllAbove-insert i k v ((j, w) ∷ m) h a = ground (arith, AllAbove-insert i k v m)

  pub IsSorted-insert : (k : Bytes) (v : V) (m : ByteMap V) → IsSorted m → IsSorted (insert k v m)
  unfolding insert
  IsSorted-insert k v [] s = (tt, tt)
  IsSorted-insert k v ((j, w) ∷ m) s = ground (
    arith,
    IsSorted-insert k v m,
    AllAbove-insert j k v m,
    cmp_bytes_flip k j,
    eq_of_cmp_bytes k j,
    AllAbove-trans k j m,
  )

  AllAbove-remove : (i k : Bytes) (m : ByteMap V) → AllAbove i m → AllAbove i (remove k m)
  unfolding remove
  AllAbove-remove i k [] a = tt
  AllAbove-remove i k ((j, w) ∷ m) a = ground (arith, AllAbove-remove i k m)

  pub IsSorted-remove : (k : Bytes) (m : ByteMap V) → IsSorted m → IsSorted (remove k m)
  unfolding remove
  IsSorted-remove k [] s = tt
  IsSorted-remove k ((j, w) ∷ m) s = ground (arith, IsSorted-remove k m, AllAbove-remove j k m)

pub cmp_bytes_turn : (a b : Bytes) → cmp_bytes a b ≡ lt → cmp_bytes b a ≡ gt
unfolding cmp_bytes
cmp_bytes_turn [] [] h = cc
cmp_bytes_turn [] (y ∷ b) h = refl
cmp_bytes_turn (x ∷ a) [] h = cc
cmp_bytes_turn (x ∷ a) (y ∷ b) h = ground (arith, cmp_bytes_turn a b)
