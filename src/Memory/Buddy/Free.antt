-- ===== src/Memory/Buddy/Free.antt =====
-- `BuddyAllocator::free` of kernel/src/memory/buddy.rs, against the multiset of free frames.
use oci_kernel.Prelude.{
  ℕ, ◌+◌, ◌-◌, ◌*◌, ◌/◌, ◌^◌, ◌≤◌, ◌<◌, ◌≡◌, refl, ◌∙◌, inl, inr, some, List, arith, bit_xor, ◌==◌,
  ltb, ltb→lt, lt→ltb, one-le-pow, returns-injective, Bool-cases, length, length-set, set, push,
  position, returns, panics,
}
use oci_kernel.Memory.Buddy.{
  BuddyAllocator, FreeLists, free_list, max_order, Merged, merge, push_back, free, order_of,
}
use oci_kernel.Memory.Buddy.Cover.{inside, in_lists, free_count, in_list-push, in_lists-write}
use oci_kernel.Memory.Buddy.Aligned.{
  IsAligned, AllAligned-push, ListsAligned-at, ListsAligned-write,
}
use oci_kernel.Memory.Buddy.Allocate.{IsValid}
use oci_kernel.Memory.Buddy.Merge.{IsMerged, merge-IsMerged}

-- What a call of `free` that returns leaves.
pub record IsFreed (a : BuddyAllocator) (frame count : ℕ) (a' : BuddyAllocator) : Type 0 where
  pub valid : IsValid a'
  pub gives : (x : ℕ) → free_count a' x ≡ free_count a x + inside (order_of count) frame x
  pub total : a'.total_frames ≡ a.total_frames

push_back-IsFreed :
    (a : BuddyAllocator) (frame count : ℕ) (m : Merged) (a' : BuddyAllocator)
    → IsValid a
    → IsMerged a.free_lists frame (order_of count) m
    → push_back a m ≡ returns a'
    → IsFreed a frame count a'
unfolding push_back free_count
push_back-IsFreed a frame count m a' v im e = elim (Bool-cases (ltb m.current_order max_order)) [
  | inl room ↦
      let at_end = im.order_le in
      let fits : m.current_order < length m.lists =
        omega (arith, im.sized, v.sized, ltb→lt _ _ room) in
      let fs : List ℕ = push (free_list m.lists m.current_order) m.current in
      let same = returns-injective (rw (room, push_back) at e) in
      rw (← same) (record {
        valid = record {
          sized = length-set m.lists m.current_order fs ∙ im.sized ∙ v.sized;
          aligned = ListsAligned-write m.current_order m.lists fs im.lists_aligned (
              AllAligned-push m.current_order (free_list m.lists m.current_order) m.current
                (ListsAligned-at m.current_order m.lists im.lists_aligned) im.aligned);
        };
        gives = λ x. omega (
          arith,
          im.covers x,
          in_lists-write m.lists m.current_order fs x fits,
          in_list-push m.current_order (free_list m.lists m.current_order) m.current x,
        );
        total = refl;
      })
  | inr full ↦ cc (rw (full, push_back) at e)
]

push_back-returns :
    (a : BuddyAllocator) (m : Merged)
    → m.current_order < max_order
    → (a' : BuddyAllocator) × (push_back a m ≡ returns a')
unfolding push_back
push_back-returns a m h = (
  record a {
    free_lists = set m.lists m.current_order (push (free_list m.lists m.current_order) m.current);
  },
  rw (lt→ltb m.current_order max_order h, push_back) refl,
)

-- A block of the order past the last holds the whole group of each of its frames.
inside-group :
    (q size frame x : ℕ)
    → 0 < size
    → q * 2 ^ max_order ≤ frame
    → frame + size ≤ q * 2 ^ max_order + 2 ^ max_order
    → x / 2 ^ max_order ≡ frame / 2 ^ max_order
    → inside max_order (q * 2 ^ max_order) x ≡ 1
unfolding inside
inside-group q size frame x pos lo hi group = ground arith

merged_below :
    (order frame x : ℕ) (ls : FreeLists) (m : Merged)
    → IsMerged ls frame order m
    → x / 2 ^ max_order ≡ frame / 2 ^ max_order
    → in_lists 0 ls x ≡ 0
    → inside order frame x ≡ 0
    → m.current_order < max_order
merged_below order frame x ls m im group used outside =
    elim (Bool-cases (ltb m.current_order max_order)) [
      | inl room ↦ ltb→lt _ _ room
      | inr full ↦
          let (q, start) = im.aligned in
          let order_le = im.order_le in
          let last : m.current_order ≡ max_order = ground arith in
          let start' : m.current ≡ q * 2 ^ max_order = rw last at start in
          let nothing : inside m.current_order m.current x ≡ 0 = omega (arith, im.covers x) in
          let low : q * 2 ^ max_order ≤ frame = rw start' at im.low in
          let high : frame + 2 ^ order ≤ q * 2 ^ max_order + 2 ^ max_order =
            rw (start', last) at im.high in
          absurd (
            omega (
              arith,
              inside-group q (2 ^ order) frame x (one-le-pow order 2 (omega arith)) low high group,
              rw (start', last) at nothing,
            ))
    ]

module _ (a : BuddyAllocator) (frame count : ℕ) where
  abbrev merged : Merged
  merged = merge (max_order - order_of count) a.free_lists frame (order_of count)

  merged-IsMerged :
      IsValid a
      → order_of count ≤ max_order
      → IsAligned (order_of count) frame
      → IsMerged a.free_lists frame (order_of count) merged
  merged-IsMerged v le al =
      merge-IsMerged (max_order - order_of count) a.free_lists frame (order_of count) (omega arith)
        v.sized v.aligned al

  -- Where `free` returns, exactly the frames of the aligned block join the free ones.
  pub free-IsFreed :
      (a' : BuddyAllocator)
      → IsValid a
      → order_of count < max_order
      → IsAligned (order_of count) frame
      → free a frame count ≡ returns a'
      → IsFreed a frame count a'
  unfolding free
  free-IsFreed a' v le al e =
      push_back-IsFreed a frame count merged a' v (merged-IsMerged v (omega arith) al) e

  -- A frame of the same 2048-frame group that stays in use stops the merging in time.
  pub free-returns :
      (x : ℕ)
      → IsValid a
      → order_of count < max_order
      → IsAligned (order_of count) frame
      → x / 2 ^ max_order ≡ frame / 2 ^ max_order
      → free_count a x ≡ 0
      → inside (order_of count) frame x ≡ 0
      → (a' : BuddyAllocator) × (free a frame count ≡ returns a')
  unfolding free free_count
  free-returns x v le al group used outside =
      let im = merged-IsMerged v (omega arith) al in
      push_back-returns a merged
        (merged_below (order_of count) frame x a.free_lists merged im group used outside)

  -- With the buddy of a block of the last order free, `current_order` runs past the array.
  pub free_panics :
      (pos : ℕ)
      → order_of count ≡ 10
      → position (λ f. f == bit_xor frame (2 ^ 10)) (free_list a.free_lists 10) ≡ some pos
      → free a frame count ≡ panics
  unfolding free merge push_back
  free_panics pos o e = rw (o, merge) (rw (e, merge) refl)
