-- ===== src/Memory/Frames/Examples.antt =====
-- The frame allocator of kernel/src/memory/mod.rs on a map of three regions.
use oci_kernel.Prelude.{ℕ, ◌*◌, ◌/◌, ◌≡◌, refl, true, false, some, List, [], ◌∷◌}
use oci_kernel.Memory.Frames.{
  MemoryRegion, BootInfoFrameAllocator, new, nth_usable, search_region, allocate_frame,
}

-- The start of the frame.
abbrev page : ℕ → ℕ
page addr = addr / 4096 * 4096

abbrev regions : List MemoryRegion
regions =
    record { is_usable = true; first = 0; last = 100 }
    ∷ record { is_usable = false; first = 4096; last = 8192 }
    ∷ record { is_usable = true; first = 8192; last = 16384 }
    ∷ []

abbrev after_first_frame : BootInfoFrameAllocator
after_first_frame = record { memory_regions = regions; region_idx = 1; frame_offset = 1 }

first_frame : allocate_frame page (new regions) ≡ (some 8192, after_first_frame)
unfolding allocate_frame search_region nth_usable new
first_frame = refl
