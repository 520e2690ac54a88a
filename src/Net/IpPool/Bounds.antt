-- ===== src/Net/IpPool/Bounds.antt =====
-- Sorted lists of numbers within bounds, and how many numbers such a list can hold.
use oci_kernel.Prelude.{
  ℕ, zero, suc, ◌+◌, ◌-◌, ◌≤◌, ◌<◌, ◌≡◌, refl, true, false, List, [], ◌∷◌, arith, length,
}
use oci_kernel.Prelude.Order.{nat_key}
use oci_kernel.Prelude.BTreeSet.{contains, insert, remove}

-- The list is strictly ascending, from `lo` on and below `hi`.
abbrev pub Within : ℕ → ℕ → List ℕ → Type 0
Within lo hi [] = Unit
Within lo hi (x ∷ s) = (lo ≤ x) × (x < hi) × Within (suc x) hi s

pub Within-weaken : (lo lo' hi : ℕ) (s : List ℕ) → lo' ≤ lo → Within lo hi s → Within lo' hi s
Within-weaken lo lo' hi [] h w = tt
Within-weaken lo lo' hi (x ∷ s) h w = (omega arith, w.1, w.2)

pub Within-insert :
    (lo hi x : ℕ) (s : List ℕ) → lo ≤ x → x < hi → Within lo hi s → Within lo hi (insert x s)
unfolding insert
Within-insert lo hi x [] l h w = (l, h, tt)
Within-insert lo hi x (y ∷ s) l h w = ground (arith, Within-insert (suc y) hi x s)

pub Within-remove : (lo hi x : ℕ) (s : List ℕ) → Within lo hi s → Within lo hi (remove x s)
unfolding remove
Within-remove lo hi x [] w = tt
Within-remove lo hi x (y ∷ s) w =
    ground (arith, Within-remove (suc y) hi x s, Within-weaken (suc y) lo hi (remove x s))

pub length-Within : (lo hi : ℕ) (s : List ℕ) → Within lo hi s → length s ≤ hi - lo
length-Within lo hi [] w = omega arith
length-Within lo hi (x ∷ s) w = omega (arith, length-Within (suc x) hi s w.2)

pub length-insert :
    (lo hi x : ℕ) (s : List ℕ)
    → Within lo hi s
    → contains x s ≡ false
    → length (insert x s) ≡ length s + 1
unfolding insert contains
length-insert lo hi x [] w h = omega arith
length-insert lo hi x (y ∷ s) w h = ground (arith, length-insert (suc y) hi x s)

contains-below : (lo hi x : ℕ) (s : List ℕ) → Within lo hi s → x < lo → contains x s ≡ false
unfolding contains
contains-below lo hi x [] w h = ground arith
contains-below lo hi x (y ∷ s) w h = ground (arith, contains-below (suc y) hi x s)

-- What the list holds is within the bounds.
pub contains_bounds :
    (lo hi x : ℕ) (s : List ℕ) → Within lo hi s → contains x s ≡ true → (lo ≤ x) × (x < hi)
unfolding contains
contains_bounds lo hi x [] w h = cc
contains_bounds lo hi x (y ∷ s) w h = ground (arith, contains_bounds (suc y) hi x s w.2)

head_of_contains :
    (lo hi y : ℕ) (s : List ℕ) → Within lo hi (y ∷ s) → contains lo (y ∷ s) ≡ true → y ≡ lo
unfolding contains
head_of_contains lo hi y s w h = ground (arith, contains-below (suc y) hi lo s)

tail_of_contains : (x y : ℕ) (s : List ℕ) → contains x (y ∷ s) ≡ true → y < x → contains x s ≡ true
unfolding contains
tail_of_contains x y s h l = ground arith

contains-nil : (x : ℕ) → contains x [] ≡ false
unfolding contains
contains-nil x = refl

-- A list that holds all of a range is as long as the range.
pub length-full :
    (n lo hi : ℕ) (s : List ℕ)
    → lo + n ≡ hi
    → Within lo hi s
    → ((x : ℕ) → lo ≤ x → x < hi → contains x s ≡ true)
    → n ≤ length s
length-full zero lo hi s e w h = omega arith
length-full (suc n) lo hi [] e w h = cc (h lo (omega arith) (omega arith), contains-nil lo)
length-full (suc n) lo hi (y ∷ s) e w h =
    let first = head_of_contains lo hi y s w (h lo (omega arith) (omega arith)) in
    omega (
      arith,
      length-full n (suc y) hi s (omega arith) w.2
          (λ x l u. tail_of_contains x y s (h x (omega arith) u) (omega arith)),
    )
