-- ===== src/Memory/Buddy/Order.antt =====
-- The order that kernel/src/memory/buddy.rs computes from a count of frames.
use oci_kernel.Prelude.{
  ℕ, zero, suc, ◌+◌, ◌-◌, ◌*◌, ◌/◌, ◌%◌, ◌^◌, ◌≤◌, ◌<◌, ◌≡◌, refl, false, arith, leb, ◌==◌,
  Bool-cases, inl, inr, pow-suc, ap, ◌∙◌, ◌⊎◌,
}
use oci_kernel.Memory.Buddy.{next_power_from, next_power_of_two, trailing_zeros_from, order_of}

trailing_zeros_from-pow : (bits k : ℕ) → k < bits → trailing_zeros_from bits (2 ^ k) ≡ k
unfolding trailing_zeros_from
trailing_zeros_from-pow zero k h = absurd (omega arith)
trailing_zeros_from-pow (suc bits) zero h = refl
trailing_zeros_from-pow (suc bits) (suc k) h =
    let even : 2 ^ suc k % 2 ≡ 0 = rw pow-suc (omega arith) in
    let half : 2 ^ suc k / 2 ≡ 2 ^ k = rw pow-suc (omega arith) in
    rw (even, half) (ap suc (trailing_zeros_from-pow bits k (omega arith)))

next_power_from-stop : (bits p count : ℕ) → count ≤ p → next_power_from (suc bits) p count ≡ p
unfolding next_power_from
next_power_from-stop bits p count h = ground arith

next_power_from-double :
    (bits p count : ℕ)
    → leb count p ≡ false
    → next_power_from (suc bits) p count ≡ next_power_from bits (p * 2) count
unfolding next_power_from
next_power_from-double bits p count h = rw h

least_step :
    (i j count : ℕ)
    → leb count (2 ^ i) ≡ false
    → (suc i < j → 2 ^ (j - 1) < count)
    → i < j
    → 2 ^ (j - 1) < count
least_step i j count above later h = elim (Bool-cases (j == suc i)) [
  | inl e ↦ let e' : j - 1 ≡ i = ground arith in rw e' (ground arith)
  | inr e ↦ later (ground arith)
]

-- `next_power_from` from `2 ^ i` stops at the first power that is large enough.
next_power_from_lem :
    (bits i count : ℕ)
    → count ≤ 2 ^ (i + bits)
    → (j : ℕ) × (next_power_from (suc bits) (2 ^ i) count ≡ 2 ^ j)
      × (j ≤ i + bits)
      × (count ≤ 2 ^ j)
      × (i < j → 2 ^ (j - 1) < count)
next_power_from_lem zero i count h =
    let e : i + 0 ≡ i = omega arith in
    let h' : count ≤ 2 ^ i = rw e at h in
    (i, next_power_from-stop 0 (2 ^ i) count h', omega arith, h', λ lt. absurd (omega arith))
next_power_from_lem (suc bits) i count h = elim (Bool-cases (leb count (2 ^ i))) [
  | inl fits ↦ (
    i,
    next_power_from-stop (suc bits) (2 ^ i) count (ground arith),
    omega arith,
    ground arith,
    λ lt. absurd (omega arith),
  )
  | inr above ↦
      let e : i + suc bits ≡ suc i + bits = omega arith in
      let (j, power, le, fits, least) = next_power_from_lem bits (suc i) count (rw e at h) in
      (
        j,
        next_power_from-double (suc bits) (2 ^ i) count above ∙ rw pow-suc at power,
        omega arith,
        fits,
        least_step i j count above least,
      )
]

order_of-pow : (count j : ℕ) → next_power_of_two count ≡ 2 ^ j → j ≤ 63 → order_of count ≡ j
unfolding order_of
order_of-pow count j e h = rw e (trailing_zeros_from-pow 64 j (omega arith))

or_zero : (j : ℕ) (P : Type 0) → (0 < j → P) → (j ≡ 0) ⊎ P
or_zero zero P p = inl refl
or_zero (suc j) P p = inr (p (omega arith))

-- The order of a count up to 2 ^ 63 is the least one whose block holds that many frames.
pub order_of_lem :
    (count : ℕ)
    → count ≤ 2 ^ 63
    → (count ≤ 2 ^ order_of count)
      × ((order_of count ≡ 0) ⊎ (2 ^ (order_of count - 1) < count))
      × (order_of count ≤ 63)
unfolding next_power_of_two
order_of_lem count h =
    let (j, e, le, fits, least) = next_power_from_lem 63 0 count h in
    let o : order_of count ≡ j = order_of-pow count j e le in
    rw o (fits, or_zero j (2 ^ (j - 1) < count) least, le)

pub order_of-one : order_of 1 ≡ 0
unfolding order_of
order_of-one = refl
