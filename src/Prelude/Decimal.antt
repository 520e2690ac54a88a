-- ===== src/Prelude/Decimal.antt =====
-- The decimal form of an unsigned number, `{}` of `format!`, and its `parse`.
use Prim.Native.Nat.{ℕ, zero, suc, ◌+◌, ◌-◌, ◌*◌, ◌/◌, ◌%◌, ◌<◌, ◌≤◌}
use mathlib.Core.Path.{◌≡◌, refl, ap, ◌∙◌}
use mathlib.Core.Bool.{Bool, true, ◌&&◌}
use mathlib.Core.Logic.{inl, inr, ◌≢◌}
use mathlib.Core.Option.{some}
use mathlib.Core.List.{[], ◌∷◌}
use native.Mathlib.Omega.{arith}
use oci_kernel.Prelude.Tests.{ltb, if◌then◌else◌, Bool-cases}
use oci_kernel.Prelude.Text.{Text, is_digit, parse_digits, parse_unsigned}

-- The digits in front of a text, with as many rounds as the number can need.
unfoldable pub digits_onto : ℕ → ℕ → Text → Text
digits_onto zero n s = s
digits_onto (suc rounds) n s =
    let t = (b'0' + n % 10) ∷ s in
    let more = digits_onto rounds (n / 10) t in if ltb n 10 then t else more

unfoldable pub to_decimal : ℕ → Text
unfolding digits_onto
to_decimal n = digits_onto (suc n) n []

-- All characters are digits.
unfoldable pub are_digits : Text → Bool
are_digits [] = true
are_digits (c ∷ s) = is_digit c && are_digits s

parse_digits_step :
    (limit m d : ℕ) (s : Text)
    → d < 10
    → m * 10 + d < limit
    → parse_digits limit m ((b'0' + d) ∷ s) ≡ parse_digits limit (m * 10 + d) s
unfolding parse_digits
parse_digits_step limit m d s h l = let e : b'0' + d - b'0' ≡ d = omega arith in rw e (ground arith)

parse_digits-digits_onto :
    (rounds limit n : ℕ) (s : Text)
    → n < rounds
    → n < limit
    → parse_digits limit 0 (digits_onto rounds n s) ≡ parse_digits limit n s
unfolding digits_onto
parse_digits-digits_onto zero limit n s r h = absurd (omega arith)
parse_digits-digits_onto (suc rounds) limit n s r h = elim (Bool-cases (ltb n 10)) [
  | inl small ↦
      let d : 0 * 10 + n % 10 ≡ n = ground arith in
      rw small (
        parse_digits_step limit 0 (n % 10) s (omega arith) (ground arith)
        ∙ ap (λ m. parse_digits limit m s) d)
  | inr large ↦
      let l : 10 ≤ n = ground arith in
      let d : n / 10 * 10 + n % 10 ≡ n = omega arith in
      rw large (
        parse_digits-digits_onto rounds limit (n / 10) ((b'0' + n % 10) ∷ s) (omega arith)
          (omega arith)
        ∙ parse_digits_step limit (n / 10) (n % 10) s (omega arith) (omega arith)
        ∙ ap (λ m. parse_digits limit m s) d)
]

are_digits-digits_onto :
    (rounds n : ℕ) (s : Text) → are_digits s ≡ true → are_digits (digits_onto rounds n s) ≡ true
unfolding digits_onto are_digits
are_digits-digits_onto zero n s h = h
are_digits-digits_onto (suc rounds) n s h =
    ground (arith, are_digits-digits_onto rounds (n / 10) ((b'0' + n % 10) ∷ s))

pub are_digits-to_decimal : (n : ℕ) → are_digits (to_decimal n) ≡ true
unfolding to_decimal are_digits
are_digits-to_decimal n = are_digits-digits_onto (suc n) n [] refl

-- A digit string is parsed digit by digit: no digit is a sign.
parse_unsigned-are_digits :
    (limit : ℕ) (s : Text)
    → are_digits s ≡ true
    → s ≢ []
    → parse_unsigned limit s ≡ parse_digits limit 0 s
unfolding parse_unsigned are_digits
parse_unsigned-are_digits limit [] h ne = absurd (ne refl)
parse_unsigned-are_digits limit (c ∷ []) h ne = ground arith
parse_unsigned-are_digits limit (c ∷ d ∷ s) h ne = ground arith

digits_onto-ne-nil : (rounds n : ℕ) (c : ℕ) (s : Text) → digits_onto rounds n (c ∷ s) ≢ []
unfolding digits_onto
digits_onto-ne-nil zero n c s = λ e. cc
digits_onto-ne-nil (suc rounds) n c s =
    ground (arith, digits_onto-ne-nil rounds (n / 10) (b'0' + n % 10) (c ∷ s))

pub to_decimal-ne-nil : (n : ℕ) → to_decimal n ≢ []
unfolding to_decimal
to_decimal-ne-nil n = ground (arith, digits_onto-ne-nil n (n / 10) (b'0' + n % 10) [])

-- A number of the type is read back from its decimal form.
pub parse_unsigned-to_decimal :
    (limit n : ℕ) → n < limit → parse_unsigned limit (to_decimal n) ≡ some n
unfolding to_decimal parse_digits
parse_unsigned-to_decimal limit n h =
    parse_unsigned-are_digits limit (to_decimal n) (are_digits-to_decimal n) (to_decimal-ne-nil n)
    ∙ parse_digits-digits_onto (suc n) limit n [] (omega arith) h
