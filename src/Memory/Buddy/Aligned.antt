-- ===== src/Memory/Buddy/Aligned.antt =====
-- The alignment invariant of kernel/src/memory/buddy.rs: a block of order `o` starts at a multiple
-- of `2 ^ o`.
use oci_kernel.Prelude.{
  ℕ, zero, suc, ◌+◌, ◌*◌, ◌/◌, ◌^◌, ◌≡◌, ◌⊎◌, inl, inr, refl, min, bit_xor, ◌∙◌, arith, List, [],
  ◌∷◌, some, get_or, set, push, pop, pop-eq-some, remove_at, pow-suc,
}
use oci_kernel.Prelude.Bits.{flip_low, bit_xor-pow}
use oci_kernel.Memory.Buddy.{FreeLists}

abbrev pub IsAligned : ℕ → ℕ → Type 0
IsAligned o f = (q : ℕ) × (f ≡ q * 2 ^ o)

abbrev pub AllAligned : ℕ → List ℕ → Type 0
AllAligned o [] = Unit
AllAligned o (f ∷ fs) = IsAligned o f × AllAligned o fs

-- The list at index `k` holds blocks of order `o + k`.
abbrev pub ListsAligned : ℕ → FreeLists → Type 0
ListsAligned o [] = Unit
ListsAligned o (fs ∷ ls) = AllAligned o fs × ListsAligned (suc o) ls

pub AllAligned-push :
    (o : ℕ) (fs : List ℕ) (f : ℕ) → AllAligned o fs → IsAligned o f → AllAligned o (push fs f)
AllAligned-push o [] f a b = (b, tt)
AllAligned-push o (g ∷ fs) f a b = (a.0, AllAligned-push o fs f a.1 b)

AllAligned-unpush :
    (o : ℕ) (fs : List ℕ) (f : ℕ) → AllAligned o (push fs f) → IsAligned o f × AllAligned o fs
AllAligned-unpush o [] f a = (a.0, tt)
AllAligned-unpush o (g ∷ fs) f a =
    let rest = AllAligned-unpush o fs f a.1 in (rest.0, (a.0, rest.1))

pub AllAligned-pop :
    (o : ℕ) (fs : List ℕ) (f : ℕ) (rest : List ℕ)
    → pop fs ≡ some (f, rest)
    → AllAligned o fs
    → IsAligned o f × AllAligned o rest
AllAligned-pop o fs f rest e a = AllAligned-unpush o rest f (rw (pop-eq-some fs f rest e) at a)

pub AllAligned-remove_at : (o p : ℕ) (fs : List ℕ) → AllAligned o fs → AllAligned o (remove_at p fs)
AllAligned-remove_at o p [] a = tt
AllAligned-remove_at o zero (f ∷ fs) a = a.1
AllAligned-remove_at o (suc p) (f ∷ fs) a = (a.0, AllAligned-remove_at o p fs a.1)

pub ListsAligned-set :
    (o k : ℕ) (ls : FreeLists) (fs : List ℕ)
    → ListsAligned o ls
    → AllAligned (o + k) fs
    → ListsAligned o (set ls k fs)
ListsAligned-set o k [] fs a b = tt
ListsAligned-set o zero (gs ∷ ls) fs a b = let e : o + 0 ≡ o = omega arith in (rw e at b, a.1)
ListsAligned-set o (suc k) (gs ∷ ls) fs a b =
    let e : o + suc k ≡ suc o + k = omega arith in
    (a.0, ListsAligned-set (suc o) k ls fs a.1 (rw e at b))

pub ListsAligned-get :
    (o k : ℕ) (ls : FreeLists) → ListsAligned o ls → AllAligned (o + k) (get_or ls k [])
ListsAligned-get o k [] a = tt
ListsAligned-get o zero (gs ∷ ls) a = let e : o + 0 ≡ o = omega arith in rw e a.0
ListsAligned-get o (suc k) (gs ∷ ls) a =
    let e : o + suc k ≡ suc o + k = omega arith in rw e (ListsAligned-get (suc o) k ls a.1)

-- An aligned block starts at a multiple of every smaller size, and so does its upper half.
pub IsAligned-weaken : (o k f : ℕ) → IsAligned (o + k) f → IsAligned o f
IsAligned-weaken o zero f a = let e : o + 0 ≡ o = omega arith in rw e at a
IsAligned-weaken o (suc k) f (q, e) =
    let s : o + suc k ≡ suc (o + k) = omega arith in
    let h : f ≡ q * 2 * 2 ^ (o + k) = e ∙ rw (s, pow-suc) (omega arith) in
    IsAligned-weaken o k f (q * 2, h)

pub IsAligned-upper : (o f : ℕ) → IsAligned (suc o) f → IsAligned o (f + 2 ^ o)
IsAligned-upper o f (q, e) = (q * 2 + 1, omega (arith, rw pow-suc at e))

-- The two halves of an aligned block `m` of the next order, in either role.
abbrev pub IsHalves : ℕ → ℕ → ℕ → ℕ → Type 0
IsHalves o m f b =
    IsAligned (suc o) m × (min f b ≡ m) × ((f ≡ m) × (b ≡ m + 2 ^ o) ⊎ (b ≡ m) × (f ≡ m + 2 ^ o))

IsHalves-even : (o r f b : ℕ) → f ≡ r * 2 * 2 ^ o → b ≡ (r * 2 + 1) * 2 ^ o → IsHalves o f f b
IsHalves-even o r f b ef eb =
    ((r, rw pow-suc (omega arith)), omega arith, inl (omega arith, omega arith))

IsHalves-odd : (o r f b : ℕ) → f ≡ (r * 2 + 1) * 2 ^ o → b ≡ r * 2 * 2 ^ o → IsHalves o b f b
IsHalves-odd o r f b ef eb =
    ((r, rw pow-suc (omega arith)), omega arith, inr (omega arith, omega arith))

flip_low-even : (r : ℕ) → flip_low (r * 2) ≡ r * 2 + 1
flip_low-even r = ground arith

flip_low-odd : (r : ℕ) → flip_low (r * 2 + 1) ≡ r * 2
flip_low-odd r = ground arith

IsHalves-at :
    (o f q r : ℕ)
    → f ≡ q * 2 ^ o
    → (q ≡ r * 2) ⊎ (q ≡ r * 2 + 1)
    → (m : ℕ) × IsHalves o m f (bit_xor f (2 ^ o))
IsHalves-at o f q r e (inl even) =
    let e' : f ≡ r * 2 * 2 ^ o = rw even at e in
    (f, IsHalves-even o r f _ e' (rw (e', bit_xor-pow, flip_low-even) refl))
IsHalves-at o f q r e (inr odd) =
    let e' : f ≡ (r * 2 + 1) * 2 ^ o = rw odd at e in
    (_, IsHalves-odd o r f (bit_xor f (2 ^ o)) e' (rw (e', bit_xor-pow, flip_low-odd) refl))

-- A block and its buddy are the two halves of the block that `free` goes on with.
pub buddy-IsHalves : (o f : ℕ) → IsAligned o f → (m : ℕ) × IsHalves o m f (bit_xor f (2 ^ o))
buddy-IsHalves o f (q, e) = IsHalves-at o f q (q / 2) e (omega arith)

-- The same for the array of all the lists, as `free` and `allocate` use it.
pub ListsAligned-at : (k : ℕ) (ls : FreeLists) → ListsAligned 0 ls → AllAligned k (get_or ls k [])
ListsAligned-at k ls a = let e : 0 + k ≡ k = omega arith in rw e at (ListsAligned-get 0 k ls a)

pub ListsAligned-write :
    (k : ℕ) (ls : FreeLists) (fs : List ℕ)
    → ListsAligned 0 ls
    → AllAligned k fs
    → ListsAligned 0 (set ls k fs)
ListsAligned-write k ls fs a b =
    let e : 0 + k ≡ k = omega arith in ListsAligned-set 0 k ls fs a (rw e b)
