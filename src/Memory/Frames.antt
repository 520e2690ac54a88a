-- ===== src/Memory/Frames.antt =====
-- The frame allocator of kernel/src/memory/mod.rs, over the memory map of the boot loader. An address
-- is a number; `end - start` of a region is taken as it is on a map whose regions end after they
-- start.
pub mod Sequence
pub mod Examples
use oci_kernel.Prelude.{
  ℕ, zero, suc, ◌+◌, ◌-◌, ◌*◌, ◌/◌, Bool, true, false, ltb, if◌then◌else◌, Option, none, some, List,
  [], ◌∷◌, length,
}

-- What the code reads of a region: `kind == MemoryRegionKind::Usable`, `start` and `end`.
pub record MemoryRegion : Type 0 where
  pub is_usable : Bool
  pub first : ℕ
  pub last : ℕ

pub record BootInfoFrameAllocator : Type 0 where
  pub memory_regions : List MemoryRegion
  pub region_idx : ℕ
  pub frame_offset : ℕ

unfoldable pub new : List MemoryRegion → BootInfoFrameAllocator
new regions = record { memory_regions = regions; region_idx = 0; frame_offset = 0 }

-- `iter().filter(…).nth(…)`
unfoldable pub nth_usable : List MemoryRegion → ℕ → Option MemoryRegion
nth_usable [] n = none
nth_usable (r ∷ rs) zero = if r.is_usable then some r else nth_usable rs zero
nth_usable (r ∷ rs) (suc n) = if r.is_usable then nth_usable rs n else nth_usable rs (suc n)

abbrev pub region_frames : MemoryRegion → ℕ
region_frames r = (r.last - r.first) / 4096

-- `PhysFrame::containing_address` of the x86_64 crate is a parameter.
module _ {F : Type 0} (containing_address : ℕ → F) where
  -- The loop, with fuel: each round without a frame moves on to the next usable region.
  unfoldable pub search_region : ℕ → BootInfoFrameAllocator → Option F × BootInfoFrameAllocator
  search_region zero a = (none, a)
  search_region (suc fuel) a =
      let rest =
        search_region fuel (record a { region_idx = a.region_idx + 1; frame_offset = 0 }) in
      elim (nth_usable a.memory_regions a.region_idx) [
        | none ↦ (none, a)
        | some region ↦
            if ltb a.frame_offset (region_frames region)
            then (
              some (containing_address (region.first + a.frame_offset * 4096)),
              record a { frame_offset = a.frame_offset + 1 },
            )
            else rest
      ]

  -- There are at most as many usable regions as regions, so that the fuel is enough.
  unfoldable pub allocate_frame : BootInfoFrameAllocator → Option F × BootInfoFrameAllocator
  unfolding search_region
  allocate_frame a = search_region (length a.memory_regions + 1) a
