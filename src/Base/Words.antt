-- ===== src/Base/Words.antt =====
-- What `|` on unsigned words keeps to.
use Prim.Native.Nat.{
  ℕ, zero, suc, ◌+◌, ◌*◌, ◌/◌, ◌%◌, ◌≤◌, ◌<◌, max, bit_or, digits, bit_or-bitwise,
}
use mathlib.Core.Path.{◌≡◌, refl}
use native.Mathlib.Omega.{arith}

-- The digits of `a | b` by fuel.
abbrev or_digits : ℕ → ℕ → ℕ → ℕ
or_digits fuel a b = digits (λ c. c) max fuel a b

or_digits_enough : (a b n m : ℕ) → a ≤ n → a ≤ m → or_digits n a b ≡ or_digits m a b
or_digits_enough zero b zero zero h k = refl
or_digits_enough zero b zero (suc m) h k = refl
or_digits_enough zero b (suc n) zero h k = refl
or_digits_enough zero b (suc n) (suc m) h k = refl
or_digits_enough (suc a) b zero m h k = absurd (omega arith)
or_digits_enough (suc a) b (suc n) zero h k = absurd (omega arith)
or_digits_enough (suc a) b (suc n) (suc m) h k =
    omega (arith, or_digits_enough (suc a / 2) (b / 2) n m (omega arith) (omega arith))

bit_or_zero : (b : ℕ) → bit_or 0 b ≡ b
bit_or_zero b = bit_or-bitwise 0 b

-- The last digit apart.
bit_or_last : (a b : ℕ) → bit_or a b ≡ bit_or (a / 2) (b / 2) * 2 + max (a % 2) (b % 2)
bit_or_last zero b = omega (arith, bit_or_zero b, bit_or_zero (b / 2))
bit_or_last (suc a) b =
    let halves = bit_or-bitwise (suc a / 2) (b / 2) in
    let enough = or_digits_enough (suc a / 2) (b / 2) a (suc a / 2) (omega arith) (omega arith) in
    omega (arith, bit_or-bitwise (suc a) b, halves, enough)

le_bit_or_fuel : (n a b : ℕ) → a ≤ n → a ≤ bit_or a b
le_bit_or_fuel n zero b h = omega arith
le_bit_or_fuel zero (suc a) b h = absurd (omega arith)
le_bit_or_fuel (suc n) (suc a) b h =
    omega (arith, bit_or_last (suc a) b, le_bit_or_fuel n (suc a / 2) (b / 2) (omega arith))

pub le_bit_or : (a b : ℕ) → a ≤ bit_or a b
le_bit_or a b = le_bit_or_fuel a a b (omega arith)

abbrev pub two_to : ℕ → ℕ
two_to zero = 1
two_to (suc k) = two_to k * 2

-- Words of `k` bits stay words of `k` bits.
pub bit_or-lt : (k a b : ℕ) → a < two_to k → b < two_to k → bit_or a b < two_to k
bit_or-lt zero a b h h' =
    let a_none : a ≡ 0 = omega arith in
    let b_none : b ≡ 0 = omega arith in rw (a_none, b_none) (omega arith)
bit_or-lt (suc k) a b h h' =
    omega (arith, bit_or_last a b, bit_or-lt k (a / 2) (b / 2) (omega arith) (omega arith))
