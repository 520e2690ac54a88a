-- ===== src/Prelude/Bits.antt =====
-- `^` with a power of two, at a multiple of that power.
use Prim.Native.Nat.{
  ℕ, zero, suc, ◌+◌, ◌-◌, ◌*◌, ◌/◌, ◌%◌, ◌^◌, ◌≤◌, bit_xor, digits, differ, bit_xor-bitwise,
}
use mathlib.Core.Path.{◌≡◌, refl, ◌∙◌, ap}
use native.Mathlib.Omega.{arith}
use native.Mathlib.Nat.{pow-suc}
use oci_kernel.Prelude.Tests.{◌==◌, if◌then◌else◌}

abbrev xor_digits : ℕ → ℕ → ℕ → ℕ
xor_digits n a b = digits (λ b. b) differ n a b

xor_digits_fuel : (n m a b : ℕ) → a ≤ n → a ≤ m → xor_digits n a b ≡ xor_digits m a b
xor_digits_fuel zero zero a b p q = refl
xor_digits_fuel zero (suc m) zero b p q = refl
xor_digits_fuel zero (suc m) (suc a) b p q = absurd (omega arith)
xor_digits_fuel (suc n) zero zero b p q = refl
xor_digits_fuel (suc n) zero (suc a) b p q = absurd (omega arith)
xor_digits_fuel (suc n) (suc m) zero b p q = refl
xor_digits_fuel (suc n) (suc m) (suc a) b p q =
    omega (arith, xor_digits_fuel n m (suc a / 2) (b / 2) (omega arith) (omega arith))

zero-bit_xor : (b : ℕ) → bit_xor 0 b ≡ b
zero-bit_xor b = bit_xor-bitwise 0 b

zero-differ : (b : ℕ) → differ 0 b ≡ b
zero-differ b = refl

differ-zero : (a : ℕ) → differ a 0 ≡ a
differ-zero zero = refl
differ-zero (suc a) = refl

-- The law for the lowest digit.
bit_xor_step : (a b : ℕ) → bit_xor a b ≡ bit_xor (a / 2) (b / 2) * 2 + differ (a % 2) (b % 2)
bit_xor_step zero b = omega (arith, zero-bit_xor b, zero-bit_xor (b / 2), zero-differ (b % 2))
bit_xor_step (suc a) b = omega (
  arith,
  bit_xor-bitwise (suc a) b,
  bit_xor-bitwise (suc a / 2) (b / 2),
  xor_digits_fuel a (suc a / 2) (suc a / 2) (b / 2) (omega arith) (omega arith),
)

bit_xor-double : (a b : ℕ) → bit_xor (a * 2) (b * 2) ≡ bit_xor a b * 2
bit_xor-double a b =
    let ea : a * 2 / 2 ≡ a = omega arith in
    let eb : b * 2 / 2 ≡ b = omega arith in
    let ra : a * 2 % 2 ≡ 0 = omega arith in
    let rb : b * 2 % 2 ≡ 0 = omega arith in
    bit_xor_step (a * 2) (b * 2) ∙ rw (ea, eb, ra, rb) (omega arith)

bit_xor-shift : (o q r : ℕ) → bit_xor (q * 2 ^ o) (r * 2 ^ o) ≡ bit_xor q r * 2 ^ o
bit_xor-shift zero q r =
    let eq : q * 1 ≡ q = omega arith in
    let er : r * 1 ≡ r = omega arith in rw (eq, er) (omega arith)
bit_xor-shift (suc o) q r =
    let eq : q * 2 ^ suc o ≡ q * 2 ^ o * 2 = rw pow-suc (omega arith) in
    let er : r * 2 ^ suc o ≡ r * 2 ^ o * 2 = rw pow-suc (omega arith) in
    let es : bit_xor q r * 2 ^ suc o ≡ bit_xor q r * 2 ^ o * 2 = rw pow-suc (omega arith) in
    rw (eq, er, es, bit_xor-double) (ap (λ t. t * 2) (bit_xor-shift o q r))

bit_xor-zero_fuel : (n a : ℕ) → a ≤ n → bit_xor a 0 ≡ a
bit_xor-zero_fuel n zero h = zero-bit_xor 0
bit_xor-zero_fuel zero (suc a) h = absurd (omega arith)
bit_xor-zero_fuel (suc n) (suc a) h = ground (
  arith,
  bit_xor_step (suc a) 0,
  bit_xor-zero_fuel n (suc a / 2) (omega arith),
  differ-zero (suc a % 2),
)

-- The number whose lowest binary digit is the other one.
abbrev pub flip_low : ℕ → ℕ
flip_low q = if q % 2 == 0 then q + 1 else q - 1

bit_xor-one : (q : ℕ) → bit_xor q 1 ≡ flip_low q
bit_xor-one q = ground (arith, bit_xor_step q 1, bit_xor-zero_fuel (q / 2) (q / 2) (omega arith))

-- At a multiple of `2 ^ o`, `^ (1 << o)` flips the lowest digit of the quotient.
pub bit_xor-pow : (q o : ℕ) → bit_xor (q * 2 ^ o) (2 ^ o) ≡ flip_low q * 2 ^ o
bit_xor-pow q o =
    let one : 1 * 2 ^ o ≡ 2 ^ o = omega arith in
    rw (← bit_xor-one q) (rw one at (bit_xor-shift o q 1))
