-- ===== src/Base/Digits.antt =====
-- The operations on binary digits: their bounds, and single digits.
use Prim.Native.Nat.{
  ℕ, zero, suc, ◌≤◌, ◌<◌, ◌-◌, ◌/◌, ◌%◌, ◌*◌, ◌+◌, ◌^◌, min, max, bit_and, bit_or, digits,
  bit_and-bitwise, bit_or-bitwise,
}
use mathlib.Core.Path.{◌≡◌, subst, sym, refl, ap, ◌∙◌}
use native.Mathlib.Nat.{pow-suc}
use native.Mathlib.Omega.{arith}

digits-le : (n a b : ℕ) → digits (λ c. 0) min n a b ≤ b
digits-le zero a b = omega arith
digits-le (suc n) zero b = omega arith
digits-le (suc n) (suc a) b = omega (arith, digits-le n (suc a / 2) (b / 2))

pub bit_and-le : (a b : ℕ) → bit_and a b ≤ b
bit_and-le a b = subst (λ x. x ≤ b) (sym (λ i. bit_and-bitwise a b i)) (digits-le a a b)

pub bit_and-lt : (a n : ℕ) → 0 < n → bit_and a (n - 1) < n
bit_and-lt a n h = omega (arith, bit_and-le a (n - 1))

module _ (z : ℕ → ℕ) (f : ℕ → ℕ → ℕ) where
  digits-zero : (n b : ℕ) → digits z f n 0 b ≡ z b
  digits-zero zero b = refl
  digits-zero (suc n) b = refl

  -- More digits than the first number has make no difference.
  digits-add : (k n a b : ℕ) → a ≤ n → digits z f (k + n) a b ≡ digits z f n a b
  digits-add k zero zero b h = digits-zero (k + 0) b
  digits-add k zero (suc a) b h = absurd (omega arith)
  digits-add k (suc n) zero b h = digits-zero (k + suc n) b
  digits-add k (suc n) (suc a) b h =
      let more : k + suc n ≡ suc (k + n) = omega arith in
      ap (λ m. digits z f m (suc a) b) more
      ∙ ap (λ x. x * 2 + f (suc a % 2) (b % 2)) (digits-add k n (suc a / 2) (b / 2) (omega arith))

  lowest_digit :
      (m n : ℕ)
      → digits z f (suc m) (suc m) n
        ≡ digits z f (suc m / 2) (suc m / 2) (n / 2) * 2 + f (suc m % 2) (n % 2)
  lowest_digit m n =
      let half = suc m / 2 in
      let spare : m - half + half ≡ m = omega arith in
      let fewer =
        subst (λ k. digits z f k half (n / 2) ≡ digits z f half half (n / 2)) spare
          (digits-add (m - half) half half (n / 2) (omega arith)) in
      ap (λ high. high * 2 + f (suc m % 2) (n % 2)) fewer

halves_or : (m n : ℕ) → bit_or m n ≡ max (m % 2) (n % 2) + bit_or (m / 2) (n / 2) * 2
halves_or zero n = simp bit_or-bitwise (omega arith)
halves_or (suc m) n = simp bit_or-bitwise (omega (arith, lowest_digit (λ y. y) max m n))

halves_and : (m n : ℕ) → bit_and m n ≡ min (m % 2) (n % 2) + bit_and (m / 2) (n / 2) * 2
halves_and zero n = simp bit_and-bitwise (omega arith)
halves_and (suc m) n = simp bit_and-bitwise (omega (arith, lowest_digit (λ y. 0) min m n))

-- The digit at a place only grows by `|`.
pub bit_or-left : (a b j : ℕ) → bit_and a (2 ^ j) ≤ bit_and (bit_or a b) (2 ^ j)
bit_or-left a b zero = omega (
  arith,
  halves_and a 1,
  halves_and (bit_or a b) 1,
  halves_or a b,
  bit_and-le (a / 2) 0,
  bit_and-le (bit_or a b / 2) 0,
)
bit_or-left a b (suc j) =
    let same : bit_or a b / 2 ≡ bit_or (a / 2) (b / 2) = omega (arith, halves_or a b) in
    let half : 2 ^ suc j / 2 ≡ 2 ^ j = omega (arith, pow-suc 2 j) in
    ground (
      arith,
      halves_and a (2 ^ suc j),
      halves_and (bit_or a b) (2 ^ suc j),
      bit_or-left (a / 2) (b / 2) j,
      same,
      half,
      pow-suc 2 j,
    )

pub bit_or-right : (a b j : ℕ) → bit_and b (2 ^ j) ≤ bit_and (bit_or a b) (2 ^ j)
bit_or-right a b zero = omega (
  arith,
  halves_and b 1,
  halves_and (bit_or a b) 1,
  halves_or a b,
  bit_and-le (b / 2) 0,
  bit_and-le (bit_or a b / 2) 0,
)
bit_or-right a b (suc j) =
    let same : bit_or a b / 2 ≡ bit_or (a / 2) (b / 2) = omega (arith, halves_or a b) in
    let half : 2 ^ suc j / 2 ≡ 2 ^ j = omega (arith, pow-suc 2 j) in
    ground (
      arith,
      halves_and b (2 ^ suc j),
      halves_and (bit_or a b) (2 ^ suc j),
      bit_or-right (a / 2) (b / 2) j,
      same,
      half,
      pow-suc 2 j,
    )

pub bit_and_self : (j : ℕ) → 0 < bit_and (2 ^ j) (2 ^ j)
bit_and_self zero = omega arith
bit_and_self (suc j) =
    let half : 2 ^ suc j / 2 ≡ 2 ^ j = omega (arith, pow-suc 2 j) in
    ground (arith, halves_and (2 ^ suc j) (2 ^ suc j), half, bit_and_self j)
