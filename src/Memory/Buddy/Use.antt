-- ===== src/Memory/Buddy/Use.antt =====
-- What a user of kernel/src/memory/buddy.rs relies on: blocks handed out are disjoint, and a fresh
-- allocator holds the frames that it was given.
use oci_kernel.Prelude.{
  ℕ, ◌+◌, ◌/◌, ◌^◌, ◌≤◌, ◌<◌, ◌≡◌, refl, some, List, [], ◌∷◌, arith, ◌==◌, if◌then◌else◌, length,
  Outcome, returns, panics, returns-injective,
}
use oci_kernel.Memory.Buddy.{
  BuddyAllocator, empty, max_order, allocate, add_frame, add_frames, new_from_frames, order_of,
}
use oci_kernel.Memory.Buddy.Cover.{inside, free_count}
use oci_kernel.Memory.Buddy.Allocate.{IsValid, allocate-IsAllocated}
use oci_kernel.Memory.Buddy.Aligned.{IsAligned}
use oci_kernel.Memory.Buddy.Order.{order_of-one}
use oci_kernel.Memory.Buddy.Free.{free-IsFreed, free-returns}

-- No frame is in two free blocks.
abbrev pub IsDisjoint : BuddyAllocator → Type 0
IsDisjoint a = (x : ℕ) → free_count a x ≤ 1

-- Two blocks handed out one after the other share no frame, and neither is free afterwards.
pub allocate_disjoint :
    (a : BuddyAllocator) (c d f g : ℕ) (a' a'' : BuddyAllocator)
    → IsValid a
    → IsDisjoint a
    → allocate a c ≡ (some f, a')
    → allocate a' d ≡ (some g, a'')
    → (x : ℕ) → inside (order_of c) f x + inside (order_of d) g x + free_count a'' x ≤ 1
allocate_disjoint a c d f g a' a'' v one p q x =
    let first = allocate-IsAllocated a c f a' v p in
    let second = allocate-IsAllocated a' d g a'' first.valid q in
    omega (arith, first.takes x, second.takes x, one x)

unfoldable pub count : ℕ → List ℕ → ℕ
count x [] = 0
count x (f ∷ fs) = (if f == x then 1 else 0) + count x fs

pub free_count-empty : (x : ℕ) → free_count empty x ≡ 0
unfolding free_count
free_count-empty x = refl

inside-frame : (f x : ℕ) → inside 0 f x ≡ (if f == x then 1 else 0)
unfolding inside
inside-frame f x = ground arith

abbrev IsFilled : BuddyAllocator → List ℕ → BuddyAllocator → Type 0
IsFilled a fs b =
    IsValid b
    × ((x : ℕ) → free_count b x ≡ free_count a x + count x fs)
    × (b.total_frames ≡ a.total_frames + length fs)

add_frame-IsFilled :
    (a : BuddyAllocator) (f : ℕ) (b : BuddyAllocator)
    → IsValid a
    → add_frame a f ≡ returns b
    → IsFilled a (f ∷ []) b
unfolding add_frame count free_count
add_frame-IsFilled a f b v e =
    let counted : BuddyAllocator = record a { total_frames = a.total_frames + 1 } in
    let valid : IsValid counted = record { sized = v.sized; aligned = v.aligned } in
    let low : order_of 1 < max_order = rw order_of-one (omega arith) in
    let start : IsAligned (order_of 1) f = rw order_of-one (f, omega arith) in
    let freed = free-IsFreed counted f 1 b valid low start e in
    (
      freed.valid,
      (λ x.
          let gives = rw order_of-one at (freed.gives x) in omega (arith, gives, inside-frame f x)),
      freed.total,
    )

add_frames-cons :
    (a : BuddyAllocator) (f : ℕ) (fs : List ℕ) (b : BuddyAllocator) (r : Outcome BuddyAllocator)
    → elim r as (λ _. Outcome BuddyAllocator) [ panics ↦ panics | returns c ↦ add_frames c fs ]
      ≡ returns b
    → (c : BuddyAllocator) × (r ≡ returns c) × (add_frames c fs ≡ returns b)
add_frames-cons a f fs b (returns c) e = (c, refl, e)
add_frames-cons a f fs b panics e = cc

pub add_frames-IsFilled :
    (fs : List ℕ) (a b : BuddyAllocator) → IsValid a → add_frames a fs ≡ returns b → IsFilled a fs b
unfolding add_frames count
add_frames-IsFilled [] a b v e =
    let same = returns-injective e in rw (← same) (v, (λ x. omega arith), omega arith)
add_frames-IsFilled (f ∷ fs) a b v e =
    let (c, p, q) = add_frames-cons a f fs b (add_frame a f) e in
    let (valid, first, total) = add_frame-IsFilled a f c v p in
    let (valid', rest, total') = add_frames-IsFilled fs c b valid q in
    (valid', (λ x. omega (arith, first x, rest x)), omega arith)

empty-IsValid : IsValid empty
empty-IsValid = record { sized = refl; aligned = omega arith }

-- Of each group of 2048 aligned frames, `gap` names one that is not free and will not be.
abbrev pub IsGap : (ℕ → ℕ) → BuddyAllocator → List ℕ → Type 0
IsGap gap a fs =
    (f : ℕ)
    → (gap f / 2 ^ max_order ≡ f / 2 ^ max_order) × (free_count a (gap f) + count (gap f) fs ≡ 0)

add_frame-returns :
    (a : BuddyAllocator) (f x : ℕ)
    → IsValid a
    → x / 2 ^ max_order ≡ f / 2 ^ max_order
    → free_count a x ≡ 0
    → count x (f ∷ []) ≡ 0
    → (b : BuddyAllocator) × (add_frame a f ≡ returns b)
unfolding add_frame count free_count
add_frame-returns a f x v group used other =
    let counted : BuddyAllocator = record a { total_frames = a.total_frames + 1 } in
    let valid : IsValid counted = record { sized = v.sized; aligned = v.aligned } in
    let low : order_of 1 < max_order = rw order_of-one (omega arith) in
    let start : IsAligned (order_of 1) f = rw order_of-one (f, omega arith) in
    free-returns counted f 1 x valid low start group used
      (rw order_of-one (omega (arith, inside-frame f x)))

pub add_frames-returns :
    (gap : ℕ → ℕ) (fs : List ℕ) (a : BuddyAllocator)
    → IsValid a
    → IsGap gap a fs
    → (b : BuddyAllocator) × (add_frames a fs ≡ returns b)
unfolding add_frames count
add_frames-returns gap [] a v g = (a, refl)
add_frames-returns gap (f ∷ fs) a v g =
    let (group, none_of) = g f in
    let (c, p) = add_frame-returns a f (gap f) v group (omega arith) (omega arith) in
    let (valid, first, total) = add_frame-IsFilled a f c v p in
    let (b, q) =
      add_frames-returns gap fs c valid
        (λ h. let (group', none_of') = g h in (group', omega (arith, first (gap h)))) in
    (b, rw (p, add_frames) q)

-- If every aligned group of 2048 frames has a frame that is not among the given ones, a fresh
-- allocator is made without a panic; it is well formed, each frame is free as often as it was
-- given, and the total is the number of frames.
pub new_from_frames_lem :
    (gap : ℕ → ℕ) (fs : List ℕ)
    → IsGap gap empty fs
    → (a : BuddyAllocator) × (new_from_frames fs ≡ returns a)
      × IsValid a
      × ((x : ℕ) → free_count a x ≡ count x fs)
      × (a.total_frames ≡ length fs)
unfolding new_from_frames
new_from_frames_lem gap fs g =
    let (a, e) = add_frames-returns gap fs empty empty-IsValid g in
    let (valid, counts, total) = add_frames-IsFilled fs empty a empty-IsValid e in
    (a, e, valid, (λ x. omega (arith, counts x, free_count-empty x)), omega arith)
