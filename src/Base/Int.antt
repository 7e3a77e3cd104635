-- ===== src/Base/Int.antt =====
-- The integers over the native numbers, and the operations of `i64` on them.
use Prim.Native.Nat.{ℕ, zero, suc, ◌-◌, ◌^◌}
use mathlib.Core.Bool.{Bool, true, false}
use mathlib.Core.Option.{Option, none, some}
use noe_db.Base.Tests.{ltb, leb, ◌==◌, if◌then◌else◌}

pub data ℤ : Type 0 where
  pos : ℕ → ℤ
  negsuc : ℕ → ℤ

infix 50 ◌==ℤ◌
abbrev pub ◌==ℤ◌ : ℤ → ℤ → Bool
pos m ==ℤ pos n = m == n
negsuc m ==ℤ negsuc n = m == n
_ ==ℤ _ = false

abbrev pub ltb_int : ℤ → ℤ → Bool
ltb_int (pos m) (pos n) = ltb m n
ltb_int (pos m) (negsuc n) = false
ltb_int (negsuc m) (pos n) = true
ltb_int (negsuc m) (negsuc n) = ltb n m

-- `a <= b`
abbrev pub leb_int : ℤ → ℤ → Bool
leb_int (pos m) (pos n) = leb m n
leb_int (pos m) (negsuc n) = false
leb_int (negsuc m) (pos n) = true
leb_int (negsuc m) (negsuc n) = leb n m

-- `-n` of an `i64`, which overflows for the least one.
abbrev pub checked_neg : ℤ → Option ℤ
checked_neg (pos zero) = some (pos zero)
checked_neg (pos (suc m)) = some (negsuc m)
checked_neg (negsuc m) = if m == 2 ^ 63 - 1 then none else some (pos (suc m))

-- `n.abs()`, which overflows for the least one.
abbrev pub checked_abs : ℤ → Option ℤ
checked_abs (pos m) = some (pos m)
checked_abs (negsuc m) = checked_neg (negsuc m)
