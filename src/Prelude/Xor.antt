-- ===== src/Prelude/Xor.antt =====
-- `^` with no bits and with a mask of ones, at every width.
use Prim.Native.Nat.{
  ℕ, zero, suc, ◌+◌, ◌-◌, ◌*◌, ◌/◌, ◌%◌, ◌^◌, ◌≤◌, ◌<◌, bit_xor, digits, bit_xor-bitwise, differ,
}
use mathlib.Core.Path.{◌≡◌, refl, ap}
use native.Mathlib.Nat.{le_refl, pow-suc, one-le-pow}
use native.Mathlib.Omega.{arith}

abbrev xor_digits : ℕ → ℕ → ℕ → ℕ
xor_digits n a b = digits (λ b. b) differ n a b

-- The recursion on digits does not depend on its fuel.
xor_digits_fuel : (n m a b : ℕ) → a ≤ n → a ≤ m → xor_digits n a b ≡ xor_digits m a b
xor_digits_fuel zero zero a b p q = refl
xor_digits_fuel zero (suc m) zero b p q = refl
xor_digits_fuel zero (suc m) (suc a) b p q = absurd (omega arith)
xor_digits_fuel (suc n) zero zero b p q = refl
xor_digits_fuel (suc n) zero (suc a) b p q = absurd (omega arith)
xor_digits_fuel (suc n) (suc m) zero b p q = refl
xor_digits_fuel (suc n) (suc m) (suc a) b p q =
    rw (xor_digits_fuel n m (suc a / 2) (b / 2) (omega arith) (omega arith))

zero-bit_xor : (b : ℕ) → bit_xor 0 b ≡ b
zero-bit_xor b = bit_xor-bitwise 0 b

bit_xor_step : (a b : ℕ) → bit_xor a b ≡ bit_xor (a / 2) (b / 2) * 2 + differ (a % 2) (b % 2)
bit_xor_step zero b = omega (arith, zero-bit_xor b, zero-bit_xor (b / 2))
bit_xor_step (suc a) b = omega (
  arith,
  bit_xor-bitwise (suc a) b,
  bit_xor-bitwise (suc a / 2) (b / 2),
  xor_digits_fuel a (suc a / 2) (suc a / 2) (b / 2) (omega arith) (omega arith),
)

differ_zero : (d : ℕ) → differ d 0 ≡ d
differ_zero zero = refl
differ_zero (suc d) = refl

differ_one : (d : ℕ) → d < 2 → differ d 1 ≡ 1 - d
differ_one zero h = refl
differ_one (suc zero) h = refl
differ_one (suc (suc d)) h = absurd (omega arith)

bit_xor-zero_fuel : (n a : ℕ) → a ≤ n → bit_xor a 0 ≡ a
bit_xor-zero_fuel n zero h = refl
bit_xor-zero_fuel zero (suc a) h = absurd (omega arith)
bit_xor-zero_fuel (suc n) (suc a) h = omega (
  arith,
  bit_xor_step (suc a) 0,
  differ_zero (suc a % 2),
  bit_xor-zero_fuel n (suc a / 2) (omega arith),
)

pub bit_xor-zero : (a : ℕ) → bit_xor a 0 ≡ a
bit_xor-zero a = bit_xor-zero_fuel a a (le_refl a)

-- With a mask of `k` ones every one of the `k` digits is turned over.
pub bit_xor_ones : (k a : ℕ) → a < 2 ^ k → bit_xor a (2 ^ k - 1) ≡ 2 ^ k - 1 - a
bit_xor_ones zero a h = let e : a ≡ 0 = omega arith in rw e
bit_xor_ones (suc k) a h = omega (
  arith,
  pow-suc 2 k,
  one-le-pow k 2,
  halves,
  parity,
  bit_xor_step a (2 ^ suc k - 1),
  differ_one (a % 2) (omega arith),
  bit_xor_ones k (a / 2) (omega (arith, pow-suc 2 k)),
)
  where
    halves : bit_xor (a / 2) ((2 ^ suc k - 1) / 2) ≡ bit_xor (a / 2) (2 ^ k - 1)
    halves = ap (bit_xor (a / 2)) (omega (arith, pow-suc 2 k, one-le-pow k 2))

    parity : differ (a % 2) ((2 ^ suc k - 1) % 2) ≡ differ (a % 2) 1
    parity = ap (differ (a % 2)) (omega (arith, pow-suc 2 k, one-le-pow k 2))
