-- ===== src/Memory/Heap/Placed.antt =====
-- Where the heap of kernel/src/memory/heap.rs lies.
use mathlib.Core.Path.{subst}
use mathlib.Core.List.{append-nil, append_assoc}
use oci_kernel.Prelude.{
  ℕ, zero, suc, ◌+◌, ◌*◌, ◌<◌, ◌≤◌, ◌≡◌, ◌⊎◌, inl, inr, refl, sym, ap, ◌∙◌, arith, Option, some,
  Option-cases, List, [], ◌∷◌, ◌++◌, length, push, returns,
}
use oci_kernel.Memory.Frames.{
  MemoryRegion, BootInfoFrameAllocator, nth_usable, region_frames, allocate_frame,
}
use oci_kernel.Memory.Frames.Sequence.{allocate_frame-IsNext}
use oci_kernel.Memory.Heap.{heap_start, page_count, map_pages, init}

-- The place `(i, o)`, a region and a number of frames in it, is not after the place `(j, p)`.
abbrev pub NotAfter : ℕ → ℕ → ℕ → ℕ → Type 0
NotAfter i o j p = ((i ≡ j) × (o ≤ p)) ⊎ (i < j)

-- Consecutive pages from `page` on, each with a frame of a usable region: the first at the place `(i, o)` or later, and each next one later than the one before.
pub data Placed {F : Type 0} (containing_address : ℕ → F) (regions : List MemoryRegion)
    : ℕ → ℕ → ℕ → List (ℕ × F) → Type 0 where
  done : {page i o : ℕ} → Placed containing_address regions page i o []
  more :
      {page i o : ℕ} {rest : List (ℕ × F)} (j p : ℕ) (region : MemoryRegion)
      → NotAfter i o j p
      → nth_usable regions j ≡ some region
      → p < region_frames region
      → Placed containing_address regions (page + 4096) j (p + 1) rest
      → Placed containing_address regions page i o
          ((page, containing_address (region.first + p * 4096)) ∷ rest)

-- The allocator `b` comes from `a` by taking frames.
pub data Takes {F : Type 0} (containing_address : ℕ → F) (a : BootInfoFrameAllocator)
    : BootInfoFrameAllocator → Type 0 where
  nothing : Takes containing_address a a
  frame :
      {b c : BootInfoFrameAllocator} (f : F)
      → Takes containing_address a b
      → allocate_frame containing_address b ≡ (some f, c)
      → Takes containing_address a c

NotAfter-next :
    (i o j p k q r t : ℕ)
    → NotAfter i o j p
    → ((k ≡ j) × (q ≡ p)) ⊎ ((j < k) × (q ≡ 0))
    → r ≡ k
    → t ≡ q + 1
    → NotAfter i o r t
NotAfter-next i o j p k q r t h n e f = ground arith

pub NotAfter-trans : (i o j p k q : ℕ) → NotAfter i o j p → NotAfter j p k q → NotAfter i o k q
NotAfter-trans i o j p k q h n = ground arith

NotAfter-ahead : (i o j p : ℕ) → ((j ≡ i) × (p ≡ o)) ⊎ ((i < j) × (p ≡ 0)) → NotAfter i o j p
NotAfter-ahead i o j p h = ground arith

module _ {F : Type 0} (containing_address : ℕ → F) where
  -- What taking frames moves on.
  Takes-NotAfter :
      {a b : BootInfoFrameAllocator}
      → Takes containing_address a b
      → NotAfter a.region_idx a.frame_offset b.region_idx b.frame_offset
        × (b.memory_regions ≡ a.memory_regions)
  Takes-NotAfter nothing = (inl (refl, omega arith), refl)
  Takes-NotAfter {a} (frame {b} {c} f t e) =
      let (before, same) = Takes-NotAfter t in
      let next = allocate_frame-IsNext containing_address b f c e in
      (
        NotAfter-next a.region_idx a.frame_offset b.region_idx b.frame_offset next.index next.offset
            c.region_idx c.frame_offset before next.ahead
            (ap (λ (x : BootInfoFrameAllocator). x.region_idx) next.stands)
            (ap (λ (x : BootInfoFrameAllocator). x.frame_offset) next.stands),
        ap (λ (x : BootInfoFrameAllocator). x.memory_regions) next.stands ∙ same,
      )

  -- A later start serves as well.
  Placed-earlier :
      {regions : List MemoryRegion} {page j p : ℕ} {rest : List (ℕ × F)} (i o : ℕ)
      → NotAfter i o j p
      → Placed containing_address regions page j p rest
      → Placed containing_address regions page i o rest
  Placed-earlier i o h done = done
  Placed-earlier {regions} {page} {j} {p} i o h (more k q region n found within rest) =
      more k q region (NotAfter-trans i o j p k q h n) found within rest

  -- A mapped page, and those after it.
  Placed-next :
      (a taken after : BootInfoFrameAllocator) (page : ℕ) (f : F) (rest : List (ℕ × F))
      → allocate_frame containing_address a ≡ (some f, taken)
      → Takes containing_address taken after
      → Placed containing_address after.memory_regions
          (page + 4096)
          after.region_idx
          after.frame_offset
          rest
      → Placed containing_address a.memory_regions page a.region_idx a.frame_offset
          ((page, f) ∷ rest)
  Placed-next a taken after page f rest e t placed =
      let next = allocate_frame-IsNext containing_address a f taken e in
      let (later, same) = Takes-NotAfter t in
      let idx : taken.region_idx ≡ next.index =
        ap (λ (x : BootInfoFrameAllocator). x.region_idx) next.stands in
      let off : taken.frame_offset ≡ next.offset + 1 =
        ap (λ (x : BootInfoFrameAllocator). x.frame_offset) next.stands in
      let regions : after.memory_regions ≡ a.memory_regions =
        same ∙ ap (λ (x : BootInfoFrameAllocator). x.memory_regions) next.stands in
      let from_here : NotAfter next.index (next.offset + 1) after.region_idx after.frame_offset =
        ground (arith, later, idx, off) in
      let placed_after = Placed-earlier next.index (next.offset + 1) from_here (
        subst
          (λ rs.
            Placed containing_address rs (page + 4096) after.region_idx after.frame_offset rest)
          regions placed) in
      subst
        (λ g.
          Placed containing_address a.memory_regions page a.region_idx a.frame_offset
            ((page, g) ∷ rest))
        (sym next.address)
        (more next.index next.offset next.region
          (NotAfter-ahead a.region_idx a.frame_offset next.index next.offset next.ahead) next.found
          next.within placed_after)

module _ {F : Type 0} (containing_address : ℕ → F)
    (map_to : List (ℕ × F) → ℕ → F → BootInfoFrameAllocator → Option BootInfoFrameAllocator)
    (only_takes : (mapped : List (ℕ × F)) (page : ℕ) (f : F) (a b : BootInfoFrameAllocator)
      → map_to mapped page f a ≡ some b
      → Takes containing_address a b) where
  map_pages-Placed :
      (left page : ℕ) (mapped : List (ℕ × F)) (a : BootInfoFrameAllocator) (out : List (ℕ × F))
      (b : BootInfoFrameAllocator)
      → map_pages containing_address map_to left page mapped a ≡ returns (out, b)
      → (rest : List (ℕ × F)) × (out ≡ mapped ++ rest)
        × (length rest ≡ left)
        × Placed containing_address a.memory_regions page a.region_idx a.frame_offset rest
  unfolding map_pages
  map_pages-Placed zero page mapped a out b h =
      let same_out : out ≡ mapped = ground arith in
      ([], same_out ∙ sym (append-nil mapped), refl, done)
  map_pages-Placed (suc left) page mapped a out b h =
      let taken = (allocate_frame containing_address a).1 in
      elim (Option-cases (allocate_frame containing_address a).0) [
        | inl e ↦ absurd (ground arith)
        | inr (f, e) ↦ elim (Option-cases (map_to mapped page f taken)) [
          | inl k ↦ absurd (ground arith)
          | inr (after, k) ↦
              let goes_on : map_pages containing_address map_to left (page + 4096)
                    (push mapped (page, f)) after
                  ≡ returns (out, b) =
                ground arith in
              let (rest, same, count, placed) =
                map_pages-Placed left (page + 4096) (push mapped (page, f)) after out b goes_on in
              (
                (page, f) ∷ rest,
                same ∙ append_assoc mapped ((page, f) ∷ []) rest,
                omega (arith, count),
                Placed-next containing_address a taken after page f rest (ap (λ o. (o, taken)) e)
                    (only_takes mapped page f taken after k) placed,
              )
        ]
      ]

  -- If `map_to` takes its frames from the allocator it is given, then the heap, once it is mapped, is 2048 consecutive pages from its start, each with a frame of a usable region, and each frame lies after the one before it in the memory map.
  pub init-Placed :
      (a : BootInfoFrameAllocator) (mapped : List (ℕ × F)) (b : BootInfoFrameAllocator)
      → init containing_address map_to a ≡ returns (mapped, b)
      → (length mapped ≡ 2048)
        × Placed containing_address a.memory_regions heap_start a.region_idx a.frame_offset mapped
  unfolding init page_count
  init-Placed a mapped b h =
      let (rest, same, count, placed) = map_pages-Placed 2048 heap_start [] a mapped b h in
      (
        ap length same ∙ count,
        subst
            (λ l.
              Placed containing_address a.memory_regions heap_start a.region_idx a.frame_offset l)
            (sym same) placed,
      )
