-- ===== src/Prelude/Xor.antt =====
-- The exclusive or of native numbers: its law for the lowest digit, its inverse, and its size.
use Prim.Native.Nat.{
  ℕ, zero, suc, ◌+◌, ◌-◌, ◌*◌, ◌/◌, ◌%◌, ◌≤◌, ◌<◌, bit_xor, digits, differ, bit_xor-bitwise,
}
use mathlib.Core.Path.{◌≡◌, refl}
use native.Mathlib.Omega.{arith}

abbrev xor_digits : ℕ → ℕ → ℕ → ℕ
xor_digits n a b = digits (λ b. b) differ n a b

xor_digits_fuel : (n m a b : ℕ) → a ≤ n → a ≤ m → xor_digits n a b ≡ xor_digits m a b
xor_digits_fuel zero zero a b p q = refl
xor_digits_fuel zero (suc m) zero b p q = refl
xor_digits_fuel zero (suc m) (suc a) b p q = absurd (omega arith)
xor_digits_fuel (suc n) zero zero b p q = refl
xor_digits_fuel (suc n) zero (suc a) b p q = absurd (omega arith)
xor_digits_fuel (suc n) (suc m) zero b p q = refl
xor_digits_fuel (suc n) (suc m) (suc a) b p q =
    omega (arith, xor_digits_fuel n m (suc a / 2) (b / 2) (omega arith) (omega arith))

zero-bit_xor : (b : ℕ) → bit_xor 0 b ≡ b
zero-bit_xor b = bit_xor-bitwise 0 b

zero-differ : (y : ℕ) → differ zero y ≡ y
zero-differ y = refl

pub bit_xor_step : (a b : ℕ) → bit_xor a b ≡ bit_xor (a / 2) (b / 2) * 2 + differ (a % 2) (b % 2)
bit_xor_step zero b = omega (arith, zero-bit_xor b, zero-bit_xor (b / 2))
bit_xor_step (suc a) b = omega (
  arith,
  bit_xor-bitwise (suc a) b,
  bit_xor-bitwise (suc a / 2) (b / 2),
  xor_digits_fuel a (suc a / 2) (suc a / 2) (b / 2) (omega arith) (omega arith),
)

differ_bit : (x y : ℕ) → x < 2 → y < 2 → (differ x y < 2) × (differ (differ x y) y ≡ x)
differ_bit zero zero h k = (omega arith, refl)
differ_bit zero (suc zero) h k = (omega arith, refl)
differ_bit (suc zero) zero h k = (omega arith, refl)
differ_bit (suc zero) (suc zero) h k = (omega arith, refl)
differ_bit zero (suc (suc y)) h k = absurd (omega arith)
differ_bit (suc zero) (suc (suc y)) h k = absurd (omega arith)
differ_bit (suc (suc x)) y h k = absurd (omega arith)

differ_one : (x : ℕ) → x < 2 → differ x 1 ≡ 1 - x
differ_one zero h = refl
differ_one (suc zero) h = refl
differ_one (suc (suc x)) h = absurd (omega arith)

-- The halves and the lowest digit of an exclusive or.
bit_xor_parts :
    (a b : ℕ)
    → (bit_xor a b / 2 ≡ bit_xor (a / 2) (b / 2)) × (bit_xor a b % 2 ≡ differ (a % 2) (b % 2))
bit_xor_parts a b =
    let bit = differ_bit (a % 2) (b % 2) (omega arith) (omega arith) in
    omega (arith, bit_xor_step a b, bit.0)

bit_xor_cancel_fuel : (n a b : ℕ) → a ≤ n → b ≤ n → bit_xor (bit_xor a b) b ≡ a
bit_xor_cancel_fuel zero zero zero h k = zero-bit_xor 0
bit_xor_cancel_fuel zero (suc a) b h k = absurd (omega arith)
bit_xor_cancel_fuel zero zero (suc b) h k = absurd (omega arith)
bit_xor_cancel_fuel (suc n) a b h k =
    let rest = bit_xor_cancel_fuel n (a / 2) (b / 2) (omega arith) (omega arith) in
    let (half, low) = bit_xor_parts a b in
    let bit = differ_bit (a % 2) (b % 2) (omega arith) (omega arith) in
    let upper : bit_xor (bit_xor a b / 2) (b / 2) ≡ a / 2 = rw half rest in
    let lower : differ (bit_xor a b % 2) (b % 2) ≡ a % 2 = rw low bit.1 in
    omega (arith, upper, lower, bit_xor_step (bit_xor a b) b)

-- To mix a number in twice gives the first number back.
pub bit_xor_cancel : (a b : ℕ) → bit_xor (bit_xor a b) b ≡ a
bit_xor_cancel a b = bit_xor_cancel_fuel (a + b) a b (omega arith) (omega arith)

-- 2 ^ n, by doubling.
abbrev pub power_of_two : ℕ → ℕ
power_of_two zero = 1
power_of_two (suc n) = 2 * power_of_two n

pub bit_xor-lt :
    (n a b : ℕ) → a < power_of_two n → b < power_of_two n → bit_xor a b < power_of_two n
bit_xor-lt zero zero zero h k = omega (arith, zero-bit_xor 0)
bit_xor-lt zero (suc a) b h k = absurd (omega arith)
bit_xor-lt zero zero (suc b) h k = absurd (omega arith)
bit_xor-lt (suc n) a b h k =
    let bit = differ_bit (a % 2) (b % 2) (omega arith) (omega arith) in
    omega (arith, bit_xor_step a b, bit.0, bit_xor-lt n (a / 2) (b / 2) (omega arith) (omega arith))

-- To mix in ones everywhere takes the complement.
pub bit_xor_ones :
    (n a : ℕ) → a < power_of_two n → bit_xor a (power_of_two n - 1) ≡ power_of_two n - 1 - a
bit_xor_ones zero zero h = zero-bit_xor 0
bit_xor_ones zero (suc a) h = absurd (omega arith)
bit_xor_ones (suc n) a h =
    let rest = bit_xor_ones n (a / 2) (omega arith) in
    let pos : 0 < power_of_two n = omega arith in
    let half : (2 * power_of_two n - 1) / 2 ≡ power_of_two n - 1 = omega (arith, pos) in
    let low : (2 * power_of_two n - 1) % 2 ≡ 1 = omega (arith, pos) in
    let step : bit_xor a (2 * power_of_two n - 1)
        ≡ bit_xor (a / 2) (power_of_two n - 1) * 2 + differ (a % 2) 1 =
      rw (half, low) at (bit_xor_step a (2 * power_of_two n - 1)) in
    omega (arith, step, rest, differ_one (a % 2) (omega arith), pos)
