-- ===== src/Memory/Buddy/Allocate.antt =====
-- `BuddyAllocator::allocate` of kernel/src/memory/buddy.rs, against the multiset of free frames.
use oci_kernel.Prelude.{
  ℕ, ◌+◌, ◌-◌, ◌≤◌, ◌<◌, ◌≡◌, refl, ap, sym, ◌∙◌, ◌↔◌, Option, none, some, arith, length, pop,
}
use oci_kernel.Memory.Buddy.{
  BuddyAllocator, FreeLists, free_list, max_order, take_from, hand_out, allocate, order_of,
}
use oci_kernel.Memory.Buddy.Cover.{inside, free_count}
use oci_kernel.Memory.Buddy.Aligned.{IsAligned, ListsAligned}
use oci_kernel.Memory.Buddy.Search.{
  take_from-IsTaken, take_from-none, take_from-eq-none, IsTaken-length, IsTaken-cover,
  IsTaken-IsAligned,
}

pub record IsValid (a : BuddyAllocator) : Type 0 where
  pub sized : length a.free_lists ≡ max_order
  pub aligned : ListsAligned 0 a.free_lists

-- What a successful call returns and leaves.
pub record IsAllocated (a : BuddyAllocator) (count f : ℕ) (a' : BuddyAllocator) : Type 0 where
  pub valid : IsValid a'
  pub aligned : IsAligned (order_of count) f
  pub takes : (x : ℕ) → free_count a x ≡ free_count a' x + inside (order_of count) f x
  pub total : a'.total_frames ≡ a.total_frames

module _ (a : BuddyAllocator) (count : ℕ) where
  abbrev search : Option (ℕ × FreeLists)
  search = take_from (max_order - order_of count) (order_of count) (order_of count) a.free_lists

  hand_out-eq-some :
      (r : Option (ℕ × FreeLists)) (f : ℕ) (a' : BuddyAllocator)
      → hand_out a r ≡ (some f, a')
      → (ls : FreeLists) × (r ≡ some (f, ls)) × (a' ≡ record a { free_lists = ls })
  unfolding hand_out
  hand_out-eq-some none f a' e = absurd (cc (ap (λ t. t.0) e))
  hand_out-eq-some (some (frame, lists)) f a' e =
      (lists, cc (ap (λ t. t.0) e), sym (ap (λ t. t.1) e))

  hand_out-eq-none : (r : Option (ℕ × FreeLists)) → (hand_out a r).0 ≡ none → r ≡ none
  unfolding hand_out
  hand_out-eq-none none e = refl
  hand_out-eq-none (some t) e = cc

  -- Whatever the count, a block that `allocate` returns is aligned to its order, and exactly its
  -- frames leave the multiset of free frames; the array stays well formed.
  pub allocate-IsAllocated :
      (f : ℕ) (a' : BuddyAllocator)
      → IsValid a
      → allocate a count ≡ (some f, a')
      → IsAllocated a count f a'
  unfolding allocate free_count
  allocate-IsAllocated f a' v e =
      let (ls, p, q) = hand_out-eq-some search f a' e in
      let t =
        take_from-IsTaken (max_order - order_of count) (order_of count) (order_of count)
          a.free_lists f ls p in
      let lo : order_of count ≤ order_of count = omega arith in
      let low = t.from in
      let high = t.to in
      let hi : order_of count + (max_order - order_of count) ≤ length a.free_lists =
        omega (arith, v.sized) in
      let al = IsTaken-IsAligned lo hi t v.aligned in
      rw q (record {
        valid = record { sized = IsTaken-length lo hi t ∙ v.sized; aligned = al.1 };
        aligned = al.0;
        takes = IsTaken-cover lo hi t;
        total = refl;
      })

  -- `allocate` returns `None`, and then changes nothing, exactly when every list from the order of
  -- the count on is empty.
  pub allocate-none_iff :
      (allocate a count ≡ (none, a))
      ↔ ((j : ℕ) → order_of count ≤ j → j < max_order → pop (free_list a.free_lists j) ≡ none)
  unfolding allocate
  allocate-none_iff = (
    (λ e j lo hi.
        take_from-none (max_order - order_of count) (order_of count) (order_of count) a.free_lists
          (hand_out-eq-none search (ap (λ t. t.0) e)) j lo (omega arith)),
    (λ e.
        rw
          (take_from-eq-none (max_order - order_of count) (order_of count) (order_of count)
            a.free_lists (λ j lo hi. e j lo (omega arith)))
          (unfold hand_out in refl)),
  )
