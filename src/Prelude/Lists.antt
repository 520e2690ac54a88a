-- ===== src/Prelude/Lists.antt =====
-- Vectors: lists measured and indexed by native numbers, under the library's names.
use Prim.Native.Nat.{ℕ, zero, suc, ◌+◌, ◌<◌}
use mathlib.Core.Path.{◌≡◌, refl, ap}
use mathlib.Core.Logic.{◌≢◌}
use mathlib.Core.Bool.{Bool, false, ◌||◌}
use mathlib.Core.List.{List, [], ◌∷◌, ◌++◌}
use mathlib.Core.Option.{Option, none, some}
use native.Mathlib.Omega.{arith}
use oci_kernel.Prelude.Tests.{if◌then◌else◌}

module _ {ℓ} {A : Type ℓ} where
  abbrev pub length : List A → ℕ
  length [] = 0
  length (x ∷ xs) = suc (length xs)

  abbrev pub get_elem? : List A → ℕ → Option A
  get_elem? [] i = none
  get_elem? (x ∷ xs) zero = some x
  get_elem? (x ∷ xs) (suc i) = get_elem? xs i

  abbrev pub get_or : List A → ℕ → A → A
  get_or [] i d = d
  get_or (x ∷ xs) zero d = x
  get_or (x ∷ xs) (suc i) d = get_or xs i d

  -- A write out of bounds changes nothing.
  abbrev pub set : List A → ℕ → A → List A
  set [] i v = []
  set (x ∷ xs) zero v = v ∷ xs
  set (x ∷ xs) (suc i) v = x ∷ set xs i v

  abbrev pub take : ℕ → List A → List A
  take zero xs = []
  take (suc n) [] = []
  take (suc n) (x ∷ xs) = x ∷ take n xs

  abbrev pub drop : ℕ → List A → List A
  drop zero xs = xs
  drop (suc n) [] = []
  drop (suc n) (x ∷ xs) = drop n xs

  abbrev pub replicate : ℕ → A → List A
  replicate zero a = []
  replicate (suc n) a = a ∷ replicate n a

  pub length-append : (xs ys : List A) → length (xs ++ ys) ≡ length xs + length ys
  length-append [] ys = omega arith
  length-append (x ∷ xs) ys = omega (arith, length-append xs ys)

  -- `Vec::push` and `Vec::pop` work at the end of the vector.
  abbrev pub push : List A → A → List A
  push xs x = xs ++ (x ∷ [])

  pub push-append : (xs : List A) (x : A) (ys : List A) → push xs x ++ ys ≡ xs ++ (x ∷ ys)
  push-append [] x ys = refl
  push-append (y ∷ xs) x ys = ap (λ zs. y ∷ zs) (push-append xs x ys)

  abbrev pub pop_onto : A → Option (A × List A) → Option (A × List A)
  pop_onto x none = some (x, [])
  pop_onto x (some (y, ys)) = some (y, x ∷ ys)

  abbrev pub pop : List A → Option (A × List A)
  pop [] = none
  pop (x ∷ xs) = pop_onto x (pop xs)

  -- `Vec::remove` at an index.
  abbrev pub remove_at : ℕ → List A → List A
  remove_at i [] = []
  remove_at zero (x ∷ xs) = xs
  remove_at (suc i) (x ∷ xs) = x ∷ remove_at i xs

  -- `iter().any`, `iter().all`
  abbrev pub any : (A → Bool) → List A → Bool
  any p [] = false
  any p (x ∷ xs) = p x || any p xs

abbrev pub shift_index : Option ℕ → Option ℕ
shift_index none = none
shift_index (some i) = some (suc i)

-- `iter().position`
abbrev pub position {ℓ} : {A : Type ℓ} → (A → Bool) → List A → Option ℕ
position p [] = none
position p (x ∷ xs) = if p x then some 0 else shift_index (position p xs)

module _ {ℓ} {A : Type ℓ} where
  pub length-set : (xs : List A) (i : ℕ) (v : A) → length (set xs i v) ≡ length xs
  length-set [] i v = refl
  length-set (x ∷ xs) zero v = refl
  length-set (x ∷ xs) (suc i) v = ap suc (length-set xs i v)

module _ {ℓ} {A : Type ℓ} where
  pop_onto-ne-none : (x : A) (r : Option (A × List A)) → pop_onto x r ≢ none
  pop_onto-ne-none x none e = cc
  pop_onto-ne-none x (some (y, ys)) e = cc

  pub pop-eq-none : (xs : List A) → pop xs ≡ none → xs ≡ []
  pop-eq-none [] e = refl
  pop-eq-none (x ∷ xs) e = absurd (pop_onto-ne-none x (pop xs) e)

  pop_onto-eq-some :
      (x : A) (xs : List A) (r : Option (A × List A)) (y : A) (ys : List A)
      → (r ≡ none → xs ≡ [])
      → ((z : A) (zs : List A) → r ≡ some (z, zs) → xs ≡ push zs z)
      → pop_onto x r ≡ some (y, ys)
      → x ∷ xs ≡ push ys y
  pop_onto-eq-some x xs none y ys at_none at_some e = cc (at_none refl)
  pop_onto-eq-some x xs (some (z, zs)) y ys at_none at_some e = ground (arith, at_some z zs refl)

  -- What `pop` takes off is what `push` would put back.
  pub pop-eq-some : (xs : List A) (y : A) (ys : List A) → pop xs ≡ some (y, ys) → xs ≡ push ys y
  pop-eq-some [] y ys e = cc
  pop-eq-some (x ∷ xs) y ys e =
      pop_onto-eq-some x xs (pop xs) y ys (pop-eq-none xs) (pop-eq-some xs) e

  pub pop-push : (xs : List A) (x : A) → pop (push xs x) ≡ some (x, xs)
  pop-push [] x = refl
  pop-push (y ∷ xs) x = rw (pop-push xs x)

-- An index below the length has an entry.
pub get_elem?-some {ℓ} :
    {A : Type ℓ} (xs : List A) (i : ℕ) → i < length xs → (x : A) × (get_elem? xs i ≡ some x)
get_elem?-some [] i h = absurd (omega arith)
get_elem?-some (x ∷ xs) zero h = (x, refl)
get_elem?-some (x ∷ xs) (suc i) h = get_elem?-some xs i (omega arith)
