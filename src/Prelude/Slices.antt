-- ===== src/Prelude/Slices.antt =====
-- Parts of a list: what is taken from it, dropped from it and found in it.
use oci_kernel.Prelude.{
  ℕ, zero, suc, ◌-◌, ◌<◌, ◌≡◌, refl, ap, arith, ltb, if◌then◌else◌, List, [], ◌∷◌, ◌++◌, length,
  take, drop, get_or,
}

module _ {ℓ} {A : Type ℓ} where
  pub take-length-append : (xs ys : List A) → take (length xs) (xs ++ ys) ≡ xs
  take-length-append [] ys = refl
  take-length-append (x ∷ xs) ys = ap (λ zs. x ∷ zs) (take-length-append xs ys)

  pub length-take :
      (n : ℕ) (xs : List A) → length (take n xs) ≡ (if ltb n (length xs) then n else length xs)
  length-take zero xs = ground arith
  length-take (suc n) [] = ground arith
  length-take (suc n) (x ∷ xs) = ground (arith, length-take n xs)

  pub length-drop : (n : ℕ) (xs : List A) → length (drop n xs) ≡ length xs - n
  length-drop zero xs = omega arith
  length-drop (suc n) [] = omega arith
  length-drop (suc n) (x ∷ xs) = omega (arith, length-drop n xs)

  pub get_or-append :
      (d : A) (xs ys : List A) (p : ℕ)
      → get_or (xs ++ ys) p d
        ≡ (if ltb p (length xs) then get_or xs p d else get_or ys (p - length xs) d)
  get_or-append d [] ys p = ground arith
  get_or-append d (x ∷ xs) ys zero = ground arith
  get_or-append d (x ∷ xs) ys (suc p) = ground (arith, get_or-append d xs ys p)

  pub get_or-take :
      (d : A) (n : ℕ) (xs : List A) (p : ℕ) → p < n → get_or (take n xs) p d ≡ get_or xs p d
  get_or-take d zero xs p h = absurd (omega arith)
  get_or-take d (suc n) [] p h = refl
  get_or-take d (suc n) (x ∷ xs) zero h = refl
  get_or-take d (suc n) (x ∷ xs) (suc p) h = get_or-take d n xs p (omega arith)
