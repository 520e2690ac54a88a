-- ===== src/Prelude/Order.antt =====
-- Keys of the ordered collections: numbers and texts.
use Prim.Native.Nat.{ℕ, compare, Ordering}
use Prim.Native.Nat.Ordering.{lt, eq, gt}
use mathlib.Core.Path.{◌≡◌, refl}
use mathlib.Core.Bool.{Bool, true, false}
use mathlib.Core.List.{List, [], ◌∷◌}
use native.Mathlib.Omega.{arith}

-- The part of `Ord` that the collections use: a comparison that is `eq` on equal keys alone.
pub record Key {ℓ} (K : Type ℓ) : Type ℓ where
  pub cmp : K → K → Ordering
  pub cmp_refl : (a : K) → cmp a a ≡ eq
  pub eq_of_cmp : (a b : K) → cmp a b ≡ eq → a ≡ b

pub compare_refl : (a : ℕ) → compare a a ≡ eq
compare_refl a = ground arith

pub eq_of_compare : (a b : ℕ) → compare a b ≡ eq → a ≡ b
eq_of_compare a b h = ground arith

instance abbrev pub nat_key : Key ℕ
nat_key = record { cmp = compare; cmp_refl = compare_refl; eq_of_cmp = eq_of_compare }

abbrev pub is_eq : Ordering → Bool
is_eq eq = true
is_eq _ = false

infix 50 ◌≟◌
abbrev pub ◌≟◌ {ℓ} : {K : Type ℓ} ⦃o : Key K⦄ → K → K → Bool
◌≟◌ ⦃o⦄ a b = is_eq (o.cmp a b)

-- Text is compared code point by code point, which is the order of its UTF-8 bytes.
unfoldable pub cmp_list : List ℕ → List ℕ → Ordering
cmp_list [] [] = eq
cmp_list [] (d ∷ t) = lt
cmp_list (c ∷ s) [] = gt
cmp_list (c ∷ s) (d ∷ t) = elim (compare c d) [ lt ↦ lt | eq ↦ cmp_list s t | gt ↦ gt ]

pub cmp_list_refl : (s : List ℕ) → cmp_list s s ≡ eq
unfolding cmp_list
cmp_list_refl [] = refl
cmp_list_refl (c ∷ s) = ground (arith, cmp_list_refl s)

pub eq_of_cmp_list : (s t : List ℕ) → cmp_list s t ≡ eq → s ≡ t
unfolding cmp_list
eq_of_cmp_list [] [] h = refl
eq_of_cmp_list [] (d ∷ t) h = cc
eq_of_cmp_list (c ∷ s) [] h = cc
eq_of_cmp_list (c ∷ s) (d ∷ t) h = ground (arith, eq_of_cmp_list s t)

instance unfoldable pub text_key : Key (List ℕ)
unfolding cmp_list
text_key = record { cmp = cmp_list; cmp_refl = cmp_list_refl; eq_of_cmp = eq_of_cmp_list }

module _ {ℓ} {K : Type ℓ} ⦃o : Key K⦄ where
  pub ≟_refl : (a : K) → (a ≟ a) ≡ true
  ≟_refl a = rw o.cmp_refl

  pub eq_of_≟ : (a b : K) → (a ≟ b) ≡ true → a ≡ b
  eq_of_≟ a b h = o.eq_of_cmp a b (ground arith)
