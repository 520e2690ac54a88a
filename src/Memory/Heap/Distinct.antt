-- ===== src/Memory/Heap/Distinct.antt =====
-- No two pages of the heap of kernel/src/memory/heap.rs have the same frame.
use oci_kernel.Prelude.{
  ℕ, ◌+◌, ◌*◌, ◌<◌, ◌≤◌, ◌≡◌, ◌≢◌, ◌⊎◌, inl, inr, refl, sym, ap, ◌∙◌, arith, Option, some, List, [],
  ◌∷◌, length, returns,
}
use oci_kernel.Memory.Frames.{MemoryRegion, BootInfoFrameAllocator, nth_usable, region_frames}
use oci_kernel.Memory.Heap.{heap_start, init}
use oci_kernel.Memory.Heap.Placed.{NotAfter, NotAfter-trans, Placed, done, more, Takes, init-Placed}

-- No page of the list has this frame.
pub data IsNew {F : Type 0} (f : F) : List (ℕ × F) → Type 0 where
  none_left : IsNew f []
  other :
      {page : ℕ} {g : F} {rest : List (ℕ × F)} → f ≢ g → IsNew f rest → IsNew f ((page, g) ∷ rest)

-- Pages one after the other from `page` on, each with a frame that no page after it has.
pub data AreDistinct {F : Type 0} : ℕ → List (ℕ × F) → Type 0 where
  no_page : {page : ℕ} → AreDistinct page []
  one_more :
      {page : ℕ} {f : F} {rest : List (ℕ × F)}
      → IsNew f rest
      → AreDistinct (page + 4096) rest
      → AreDistinct page ((page, f) ∷ rest)

module _ {F : Type 0} (containing_address : ℕ → F) (regions : List MemoryRegion)
    (separates : (x y : ℕ) → x + 4096 ≤ y → containing_address x ≢ containing_address y)
    (apart : (i j : ℕ) (r s : MemoryRegion)
      → i < j
      → nth_usable regions i ≡ some r
      → nth_usable regions j ≡ some s
      → (r.last ≤ s.first) ⊎ (s.last ≤ r.first)) where
  -- Frames at different places are different.
  frames_differ :
      (k q : ℕ) (r : MemoryRegion) (j p : ℕ) (s : MemoryRegion)
      → nth_usable regions k ≡ some r
      → q < region_frames r
      → nth_usable regions j ≡ some s
      → p < region_frames s
      → NotAfter k (q + 1) j p
      → containing_address (r.first + q * 4096) ≢ containing_address (s.first + p * 4096)
  frames_differ k q r j p s e l f m (inl (same, later)) =
      let region : some r ≡ some s = sym e ∙ ap (nth_usable regions) same ∙ f in
      let start : r.first ≡ s.first = ground arith in
      separates (r.first + q * 4096) (s.first + p * 4096) (omega (arith, start, later))
  frames_differ k q r j p s e l f m (inr before) = elim (apart k j r s before e f) [
    | inl a ↦ separates (r.first + q * 4096) (s.first + p * 4096) (omega (arith, a, l))
    | inr a ↦
        λ same. separates (s.first + p * 4096) (r.first + q * 4096) (omega (arith, a, m)) (sym same)
  ]

  Placed-IsNew :
      {page i o : ℕ} {rest : List (ℕ × F)} (k q : ℕ) (r : MemoryRegion)
      → nth_usable regions k ≡ some r
      → q < region_frames r
      → NotAfter k (q + 1) i o
      → Placed containing_address regions page i o rest
      → IsNew (containing_address (r.first + q * 4096)) rest
  Placed-IsNew k q r e l n done = none_left
  Placed-IsNew {page} {i} {o} k q r e l n (more j p s before found within rest) =
      let ahead = NotAfter-trans k (q + 1) i o j p n before in
      other (frames_differ k q r j p s e l found within ahead)
        (Placed-IsNew k q r e l (ground (arith, ahead)) rest)

  Placed-AreDistinct :
      {page i o : ℕ} {rest : List (ℕ × F)}
      → Placed containing_address regions page i o rest
      → AreDistinct page rest
  Placed-AreDistinct done = no_page
  Placed-AreDistinct (more j p s before found within rest) =
      one_more (Placed-IsNew j p s found within (inl (refl, omega arith)) rest)
        (Placed-AreDistinct rest)

-- If two addresses that are a page apart or more lie in different frames, no two usable regions overlap, and `map_to` takes its frames from the allocator it is given, then the heap, once it is mapped, is 2048 consecutive pages from its start, and no two of them have the same frame.
pub init-AreDistinct :
    {F : Type 0} (containing_address : ℕ → F)
    (map_to : List (ℕ × F) → ℕ → F → BootInfoFrameAllocator → Option BootInfoFrameAllocator)
    (a : BootInfoFrameAllocator) (mapped : List (ℕ × F)) (b : BootInfoFrameAllocator)
    → ((x y : ℕ) → x + 4096 ≤ y → containing_address x ≢ containing_address y)
    → ((i j : ℕ) (r s : MemoryRegion)
        → i < j
        → nth_usable a.memory_regions i ≡ some r
        → nth_usable a.memory_regions j ≡ some s
        → (r.last ≤ s.first) ⊎ (s.last ≤ r.first))
    → ((mapped : List (ℕ × F)) (page : ℕ) (f : F) (a b : BootInfoFrameAllocator)
        → map_to mapped page f a ≡ some b
        → Takes containing_address a b)
    → init containing_address map_to a ≡ returns (mapped, b)
    → (length mapped ≡ 2048) × AreDistinct heap_start mapped
init-AreDistinct containing_address map_to a mapped b separates apart only_takes h =
    let (count, placed) = init-Placed containing_address map_to only_takes a mapped b h in
    (count, Placed-AreDistinct containing_address a.memory_regions separates apart placed)
