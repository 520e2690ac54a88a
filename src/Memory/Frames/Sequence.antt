-- ===== src/Memory/Frames/Sequence.antt =====
-- The order and the end of the frames of kernel/src/memory/mod.rs.
use oci_kernel.Prelude.{
  ℕ, zero, suc, ◌+◌, ◌*◌, ◌<◌, ◌≤◌, ◌≡◌, refl, sym, ap, ◌∙◌, ◌⊎◌, arith, ltb, none, some,
  Option-cases, inl, inr, Bool-cases, ltb→lt, List, [], ◌∷◌, length,
}
use oci_kernel.Memory.Frames.{
  MemoryRegion, BootInfoFrameAllocator, nth_usable, region_frames, search_region, allocate_frame,
}

nth_usable-none : (rs : List MemoryRegion) (n : ℕ) → length rs ≤ n → nth_usable rs n ≡ none
unfolding nth_usable
nth_usable-none [] n h = refl
nth_usable-none (r ∷ rs) zero h = ground arith
nth_usable-none (r ∷ rs) (suc n) h =
    ground (arith, nth_usable-none rs n, nth_usable-none rs (suc n))

module _ {F : Type 0} (containing_address : ℕ → F) where
  stops :
      (fuel : ℕ) (a : BootInfoFrameAllocator)
      → nth_usable a.memory_regions a.region_idx ≡ none
      → search_region containing_address (suc fuel) a ≡ (none, a)
  unfolding search_region
  stops fuel a n = ground arith

  same_rest :
      (m n : ℕ) (a : BootInfoFrameAllocator)
      → search_region containing_address m
          (record a { region_idx = a.region_idx + 1; frame_offset = 0 })
        ≡ search_region containing_address n
            (record a { region_idx = a.region_idx + 1; frame_offset = 0 })
      → search_region containing_address (suc m) a ≡ search_region containing_address (suc n) a
  unfolding search_region
  same_rest m n a e = ground arith

  -- With a round for each region that is left, and one more, further rounds change nothing.
  pub search_region_enough :
      (fuel more : ℕ) (a : BootInfoFrameAllocator)
      → length a.memory_regions ≤ fuel + a.region_idx
      → search_region containing_address (fuel + 1 + more) a
        ≡ search_region containing_address (fuel + 1) a
  search_region_enough zero more a h =
      let e : 0 + 1 + more ≡ suc more = omega arith in
      let n = nth_usable-none a.memory_regions a.region_idx (omega arith) in
      rw e (stops more a n ∙ sym (stops 0 a n))
  search_region_enough (suc fuel) more a h =
      let next : BootInfoFrameAllocator = record a {
        region_idx = a.region_idx + 1;
        frame_offset = 0;
      } in
      let e : suc fuel + 1 + more ≡ suc (fuel + 1 + more) = omega arith in
      let e' : suc fuel + 1 ≡ suc (fuel + 1) = omega arith in
      rw (e, e')
        (same_rest (fuel + 1 + more) (fuel + 1) a
          (search_region_enough fuel more next (omega arith)))

  -- This frame is the next one: of the current region, or the first one of a later usable region. It lies in that region, and the allocator after it stands right behind it.
  pub record IsNext (a : BootInfoFrameAllocator) (frame : F) (a' : BootInfoFrameAllocator)
      : Type 0 where
    pub index : ℕ
    pub offset : ℕ
    pub region : MemoryRegion
    pub found : nth_usable a.memory_regions index ≡ some region
    pub within : offset < region_frames region
    pub address : frame ≡ containing_address (region.first + offset * 4096)
    pub stands : a' ≡ record a { region_idx = index; frame_offset = offset + 1 }
    pub ahead :
        ((index ≡ a.region_idx) × (offset ≡ a.frame_offset))
        ⊎ ((a.region_idx < index) × (offset ≡ 0))

  search_region-IsNext :
      (fuel : ℕ) (a : BootInfoFrameAllocator) (frame : F) (a' : BootInfoFrameAllocator)
      → search_region containing_address fuel a ≡ (some frame, a')
      → IsNext a frame a'
  unfolding search_region
  search_region-IsNext zero a frame a' h = absurd (cc (ap (λ t. t.0) h))
  search_region-IsNext (suc fuel) a frame a' h =
      let next : BootInfoFrameAllocator = record a {
        region_idx = a.region_idx + 1;
        frame_offset = 0;
      } in
      elim (Option-cases (nth_usable a.memory_regions a.region_idx)) [
        | inl e ↦ ground arith
        | inr (region, e) ↦ elim (Bool-cases (ltb a.frame_offset (region_frames region))) [
          | inl l ↦ record {
            index = a.region_idx;
            offset = a.frame_offset;
            region = region;
            found = e;
            within = ltb→lt _ _ l;
            address = ground arith;
            stands = ground arith;
            ahead = inl (refl, refl);
          }
          | inr l ↦
              let q : search_region containing_address fuel next ≡ (some frame, a') =
                ground arith in
              let r = search_region-IsNext fuel next frame a' q in
              record {
                index = r.index;
                offset = r.offset;
                region = r.region;
                found = r.found;
                within = r.within;
                address = r.address;
                stands = r.stands;
                ahead = inr (omega (arith, r.ahead), omega (arith, r.ahead));
              }
        ]
      ]

  -- A frame that `allocate_frame` returns is the next one: at the current offset of the current region, or the first one of a later usable region. It lies in that region, and the allocator then stands right behind it.
  pub allocate_frame-IsNext :
      (a : BootInfoFrameAllocator) (frame : F) (a' : BootInfoFrameAllocator)
      → allocate_frame containing_address a ≡ (some frame, a')
      → IsNext a frame a'
  unfolding allocate_frame
  allocate_frame-IsNext a frame a' h =
      search_region-IsNext (length a.memory_regions + 1) a frame a' h
