-- ===== src/Memory/Buddy/Examples.antt =====
-- Runs of kernel/src/memory/buddy.rs, and its theorems at concrete allocators.
use oci_kernel.Prelude.{
  ℕ, zero, suc, ◌<◌, ◌++◌, ◌+◌, ◌*◌, ◌/◌, ◌≤◌, ◌≡◌, refl, some, List, [], ◌∷◌, arith, replicate,
  length, returns, panics,
}
use oci_kernel.Memory.Buddy.{
  BuddyAllocator, empty, max_order, allocate, free, new_from_frames, order_of, take_from,
  split_down, merge,
}
use oci_kernel.Memory.Buddy.Cover.{inside, free_count}
use oci_kernel.Memory.Buddy.Aligned.{IsAligned}
use oci_kernel.Memory.Buddy.Allocate.{IsValid, IsAllocated, allocate-IsAllocated}
use oci_kernel.Memory.Buddy.Free.{IsFreed, free-IsFreed, free_panics}
use oci_kernel.Memory.Buddy.Use.{
  IsDisjoint, allocate_disjoint, count, IsGap, free_count-empty, new_from_frames_lem,
}

abbrev frames : List ℕ
frames = 0 ∷ 1 ∷ 2 ∷ 3 ∷ 4 ∷ 5 ∷ 6 ∷ 7 ∷ []

-- The eight frames merge into one block of order 3.
abbrev eight : BuddyAllocator
eight = record { free_lists = [] ∷ [] ∷ [] ∷ (0 ∷ []) ∷ replicate 7 []; total_frames = 8 }

new_from_eight : new_from_frames frames ≡ returns eight
unfolding new_from_frames order_of merge
new_from_eight = refl

-- Two frames split the block of eight twice.
abbrev six : BuddyAllocator
six = record { free_lists = [] ∷ (2 ∷ []) ∷ (4 ∷ []) ∷ replicate 8 []; total_frames = 8 }

allocate_two : allocate eight 2 ≡ (some 0, six)
unfolding allocate take_from split_down order_of
allocate_two = refl

abbrev five : BuddyAllocator
five = record { free_lists = (3 ∷ []) ∷ [] ∷ (4 ∷ []) ∷ replicate 8 []; total_frames = 8 }

allocate_one : allocate six 1 ≡ (some 2, five)
unfolding allocate take_from split_down order_of
allocate_one = refl

eight-IsValid : IsValid eight
eight-IsValid = record { sized = refl; aligned = (tt, (tt, (tt, (((0, refl), tt), omega arith)))) }

six-IsValid : IsValid six
six-IsValid = record {
  sized = refl;
  aligned = (tt, (((1, refl), tt), (((1, refl), tt), omega arith)));
}

eight-IsDisjoint : IsDisjoint eight
unfolding free_count inside
eight-IsDisjoint x = ground arith

allocate-IsAllocated_example : IsAllocated eight 2 0 six
allocate-IsAllocated_example = allocate-IsAllocated eight 2 0 six eight-IsValid allocate_two

allocate_disjoint_example :
    inside (order_of 2) 0 1 + inside (order_of 1) 2 1 + free_count five 1 ≤ 1
allocate_disjoint_example =
    allocate_disjoint eight 2 1 0 2 six five eight-IsValid eight-IsDisjoint allocate_two
      allocate_one 1

-- Freeing the two frames merges all eight again.
free_two : free six 0 2 ≡ returns eight
unfolding free merge order_of
free_two = refl

order_of_two : order_of 2 ≡ 1
unfolding order_of
order_of_two = refl

two_low : order_of 2 < max_order
two_low = rw order_of_two (omega arith)

zero-IsAligned : (o : ℕ) → IsAligned o 0
zero-IsAligned o = (0, omega arith)

free-IsFreed_example : IsFreed six 0 2 eight
free-IsFreed_example = free-IsFreed six 0 2 eight six-IsValid two_low (zero-IsAligned _) free_two

eight_used : free_count six 8 ≡ 0
unfolding free_count inside
eight_used = refl

eight_outside : inside (order_of 2) 0 8 ≡ 0
unfolding inside order_of
eight_outside = refl

-- Half of a 2048-frame group is free when the other half comes back.
abbrev upper_half : BuddyAllocator
upper_half = record { free_lists = replicate 10 [] ++ (1024 ∷ []) ∷ []; total_frames = 2048 }

order_of_half : order_of 1024 ≡ 10
unfolding order_of
order_of_half = refl

free_panics_example : free upper_half 0 1024 ≡ panics
free_panics_example = free_panics upper_half 0 1024 0 order_of_half refl

abbrev last_of_group : ℕ → ℕ
last_of_group f = f / 2048 * 2048 + 2047

none_last : (f : ℕ) → count (last_of_group f) frames ≡ 0
unfolding count
none_last f = ground arith

last-IsGap : IsGap last_of_group empty frames
last-IsGap f = (omega arith, omega (arith, none_last f, free_count-empty (last_of_group f)))

new_from_frames_lem_example :
    (a : BuddyAllocator) × (new_from_frames frames ≡ returns a)
    × IsValid a
    × ((x : ℕ) → free_count a x ≡ count x frames)
    × (a.total_frames ≡ length frames)
new_from_frames_lem_example = new_from_frames_lem last_of_group frames last-IsGap

-- The frames 0, 1, ..., n - 1.
below : ℕ → List ℕ → List ℕ
below zero fs = fs
below (suc n) fs = below n (n ∷ fs)

-- A machine with 8 MiB of contiguous frames from 0 cannot make its allocator.
whole_group_panics : new_from_frames (below 2048 []) ≡ panics
unfolding new_from_frames order_of merge below
whole_group_panics = refl
