-- ===== src/Memory.antt =====
-- kernel/src/memory: the buddy allocator, the frames of the memory map and the heap.
pub mod Buddy
pub mod Frames
pub mod Heap
