-- ===== src/Prelude/Bits.antt =====
-- Bits of a number: the laws of `bit_or` that a bitmap needs.
use Prim.Native.Nat.{
  ℕ, zero, suc, ◌+◌, ◌*◌, ◌/◌, ◌%◌, ◌^◌, ◌≤◌, ◌<◌, max, bit_or, digits, bit_or-bitwise,
}
use mathlib.Core.Path.{◌≡◌, refl}
use native.Mathlib.Nat.{pow-suc, div-div-eq-div-mul, div-eq_of_lt, add-div_right}
use native.Mathlib.Omega.{arith}

abbrev or_digits : ℕ → ℕ → ℕ → ℕ
or_digits n a b = digits (λ b. b) max n a b

or_digits_fuel : (n m a b : ℕ) → a ≤ n → a ≤ m → or_digits n a b ≡ or_digits m a b
or_digits_fuel zero zero a b p q = refl
or_digits_fuel zero (suc m) zero b p q = refl
or_digits_fuel zero (suc m) (suc a) b p q = absurd (omega arith)
or_digits_fuel (suc n) zero zero b p q = refl
or_digits_fuel (suc n) zero (suc a) b p q = absurd (omega arith)
or_digits_fuel (suc n) (suc m) zero b p q = refl
or_digits_fuel (suc n) (suc m) (suc a) b p q =
    omega (arith, or_digits_fuel n m (suc a / 2) (b / 2) (omega arith) (omega arith))

zero-bit_or : (b : ℕ) → bit_or 0 b ≡ b
zero-bit_or b = bit_or-bitwise 0 b

bit_or_step : (a b : ℕ) → bit_or a b ≡ bit_or (a / 2) (b / 2) * 2 + max (a % 2) (b % 2)
bit_or_step zero b = omega (arith, zero-bit_or b, zero-bit_or (b / 2))
bit_or_step (suc a) b = omega (
  arith,
  bit_or-bitwise (suc a) b,
  bit_or-bitwise (suc a / 2) (b / 2),
  or_digits_fuel a (suc a / 2) (suc a / 2) (b / 2) (omega arith) (omega arith),
)

pub pow_suc : (i : ℕ) → 2 ^ suc i ≡ 2 * 2 ^ i
pow_suc i = omega (arith, pow-suc 2 i)

pub pow_pos : (i : ℕ) → 0 < 2 ^ i
pow_pos zero = omega arith
pow_pos (suc i) = omega (arith, pow_suc i, pow_pos i)

-- To set a bit above all bits of a number is to add its value.
pub bit_or-pow : (i a : ℕ) → a < 2 ^ i → bit_or a (2 ^ i) ≡ a + 2 ^ i
bit_or-pow zero zero h = omega (arith, zero-bit_or (2 ^ 0))
bit_or-pow zero (suc a) h = absurd (omega arith)
bit_or-pow (suc i) a h = ground (arith, bit_or_step a (2 ^ suc i), pow_suc i, bit_or-pow i (a / 2))

-- The bit of weight `2 ^ k`, as `(a >> k) & 1`.
abbrev pub bit : ℕ → ℕ → ℕ
bit a k = a / 2 ^ k % 2

bit-suc : (a k : ℕ) → bit a (suc k) ≡ bit (a / 2) k
bit-suc a k = rw (pow_suc k, ← div-div-eq-div-mul a 2 (2 ^ k)) refl

-- A new high bit leaves the bits below it alone.
pub bit-add-pow_lt : (k n a : ℕ) → k < n → bit (a + 2 ^ n) k ≡ bit a k
bit-add-pow_lt k zero a h = absurd (omega arith)
bit-add-pow_lt zero (suc n) a h = omega (arith, pow_suc n)
bit-add-pow_lt (suc k) (suc n) a h =
    let halved : (a + 2 ^ suc n) / 2 ≡ a / 2 + 2 ^ n = omega (arith, pow_suc n) in
    rw (bit-suc a k, bit-suc (a + 2 ^ suc n) k, halved) (bit-add-pow_lt k n (a / 2) (omega arith))

pub bit-add-pow_self : (n a : ℕ) → a < 2 ^ n → bit (a + 2 ^ n) n ≡ 1
bit-add-pow_self n a h = rw (add-div_right a (pow_pos n), div-eq_of_lt h) (omega arith)

pub bit_above : (n a : ℕ) → a < 2 ^ n → bit a n ≡ 0
bit_above n a h = rw (div-eq_of_lt h) (omega arith)
