-- ===== src/Base/Bytes.antt =====
-- Byte strings: their order (that of `Vec<u8>`), big-endian words, and the bounds of the strings that
-- begin with a given one.
use Prim.Native.Nat.{compare, Ordering}
use Prim.Native.Nat.Ordering.{lt, eq, gt}
use Prim.Native.Nat.{ℕ, zero, suc, ◌+◌, ◌*◌, ◌/◌, ◌%◌, ◌^◌, ◌≤◌, ◌<◌}
use mathlib.Core.Path.{◌≡◌, refl, ap}
use mathlib.Core.Bool.{Bool, true, false}
use mathlib.Core.List.{List, [], ◌∷◌, ◌++◌}
use native.Mathlib.Omega.{arith}
use native.Mathlib.Nat.{div-add-mod, mod-lt, pow-suc}
use mathlib.Core.Option.{Option, none, some}
use noe_db.Base.Tests.{leb, if◌then◌else◌}
use noe_db.Base.Lists.{length, take, drop, length-append, drop-append_at, take-append_at}

abbrev pub Bytes : Type 0
Bytes = List ℕ

-- The lexicographic order.
unfoldable pub cmp_bytes : Bytes → Bytes → Ordering
cmp_bytes [] [] = eq
cmp_bytes [] (y ∷ ys) = lt
cmp_bytes (x ∷ xs) [] = gt
cmp_bytes (x ∷ xs) (y ∷ ys) = elim (compare x y) [ lt ↦ lt | eq ↦ cmp_bytes xs ys | gt ↦ gt ]

abbrev pub is_eq : Ordering → Bool
is_eq eq = true
is_eq _ = false

abbrev pub is_lt : Ordering → Bool
is_lt lt = true
is_lt _ = false

abbrev pub is_gt : Ordering → Bool
is_gt gt = true
is_gt _ = false

pub cmp_bytes_refl : (xs : Bytes) → cmp_bytes xs xs ≡ eq
unfolding cmp_bytes
cmp_bytes_refl [] = refl
cmp_bytes_refl (x ∷ xs) = ground (arith, cmp_bytes_refl xs)

pub eq_of_cmp_bytes : (xs ys : Bytes) → cmp_bytes xs ys ≡ eq → xs ≡ ys
unfolding cmp_bytes
eq_of_cmp_bytes [] [] h = refl
eq_of_cmp_bytes [] (y ∷ ys) h = cc
eq_of_cmp_bytes (x ∷ xs) [] h = cc
eq_of_cmp_bytes (x ∷ xs) (y ∷ ys) h = ground (arith, eq_of_cmp_bytes xs ys)

-- `bytes.get(off..off + n)`
unfoldable pub slice : Bytes → ℕ → ℕ → Option Bytes
slice bytes off n = if leb (off + n) (length bytes) then some (take n (drop off bytes)) else none

pub slice-append :
    (a b c : Bytes) (i n : ℕ) → length a ≡ i → length b ≡ n → slice (a ++ (b ++ c)) i n ≡ some b
unfolding slice
slice-append a b c i n e f = ground (
  arith,
  drop-append_at a (b ++ c) i e,
  take-append_at b c n f,
  length-append a (b ++ c),
  length-append b c,
)

-- A common beginning does not matter.
pub cmp_bytes-append : (k a b : Bytes) → cmp_bytes (k ++ a) (k ++ b) ≡ cmp_bytes a b
unfolding cmp_bytes
cmp_bytes-append [] a b = refl
cmp_bytes-append (x ∷ k) a b = ground (arith, cmp_bytes-append k a b)

-- `n.to_be_bytes()` of a word of `w` bytes, `n` below `256 ^ w`
unfoldable pub to_be_bytes : ℕ → ℕ → Bytes
to_be_bytes zero n = []
to_be_bytes (suc w) n = (n / 256 ^ w) ∷ to_be_bytes w (n % 256 ^ w)

pub length-to_be_bytes : (w n : ℕ) → length (to_be_bytes w n) ≡ w
unfolding to_be_bytes
length-to_be_bytes zero n = refl
length-to_be_bytes (suc w) n = ap suc (length-to_be_bytes w (n % 256 ^ w))

pow_pos : (w : ℕ) → 0 < 256 ^ w
pow_pos zero = omega arith
pow_pos (suc w) = omega (arith, pow-suc 256 w, pow_pos w)

high_or_low : (p m n : ℕ) → m < n → m / p ≡ n / p → m % p < n % p
high_or_low p m n h e =
    let a : p * (m / p) + m % p ≡ m = div-add-mod m p in
    let b : p * (n / p) + n % p ≡ n = div-add-mod n p in
    omega (arith, a, b, ap (λ (q : ℕ). p * q) e)

high_le : (p m n : ℕ) → 0 < p → m < n → m / p ≤ n / p
high_le p m n pos h =
    let a : p * (m / p) + m % p ≡ m = div-add-mod m p in
    let b : p * (n / p) + n % p ≡ n = div-add-mod n p in grind (arith, mod-lt m pos, mod-lt n pos)

-- Words of one width are ordered as their big-endian bytes are.
pub cmp-to_be_bytes :
    (w m n : ℕ) → m < n → n < 256 ^ w → cmp_bytes (to_be_bytes w m) (to_be_bytes w n) ≡ lt
unfolding to_be_bytes cmp_bytes
cmp-to_be_bytes zero m n h k = absurd (omega arith)
cmp-to_be_bytes (suc w) m n h k = ground (
  arith,
  high_le (256 ^ w) m n (pow_pos w) h,
  high_or_low (256 ^ w) m n h,
  cmp-to_be_bytes w (m % 256 ^ w) (n % 256 ^ w),
  mod-lt n (pow_pos w),
)
