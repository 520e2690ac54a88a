-- ===== src/Memory/Heap.antt =====
-- kernel/src/memory/heap.rs: the pages of the heap are mapped to frames. `map_to` and the frames of the
-- x86_64 crate are parameters: `map_to` may take frames for its tables from the same allocator. The
-- allocator that is then given the range is a third-party one.
pub mod Placed
pub mod Distinct
pub mod Examples
use oci_kernel.Prelude.{
  ℕ, zero, suc, ◌+◌, ◌-◌, ◌*◌, ◌/◌, ◌%◌, Option, none, some, List, [], ◌∷◌, push, Outcome, returns,
  panics,
}
use oci_kernel.Memory.Frames.{MemoryRegion, BootInfoFrameAllocator, allocate_frame, new}

abbrev pub heap_start : ℕ
heap_start = 0xFFFFC00000000000

abbrev pub heap_size : ℕ
heap_size = 8 * 1024 * 1024

-- `Page::containing_address`: the start of the page.
abbrev pub page_of : ℕ → ℕ
page_of addr = addr - addr % 4096

-- The number of pages of `range_inclusive`, from the page of the first byte to that of the last one.
unfoldable pub page_count : ℕ
page_count = (page_of (heap_start + heap_size - 1) - page_of heap_start) / 4096 + 1

module _ {F : Type 0} (containing_address : ℕ → F)
    (map_to : List (ℕ × F) → ℕ → F → BootInfoFrameAllocator → Option BootInfoFrameAllocator) where
  -- The loop over the pages: `mapped` are the pages that are mapped, with their frames.
  unfoldable pub map_pages :
      ℕ
      → ℕ
      → List (ℕ × F)
      → BootInfoFrameAllocator
      → Outcome (List (ℕ × F) × BootInfoFrameAllocator)
  map_pages zero page mapped a = returns (mapped, a)
  map_pages (suc left) page mapped a =
      let (found, taken) = allocate_frame containing_address a in
      elim found [
        | none ↦ panics
        | some frame ↦ elim (map_to mapped page frame taken) [
          | none ↦ panics
          | some after ↦ map_pages left (page + 4096) (push mapped (page, frame)) after
        ]
      ]

  unfoldable pub init : BootInfoFrameAllocator → Outcome (List (ℕ × F) × BootInfoFrameAllocator)
  init a = map_pages page_count (page_of heap_start) [] a
