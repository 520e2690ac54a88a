-- ===== src/Memory/Heap/Examples.antt =====
-- The heap of kernel/src/memory/heap.rs on a machine with two usable regions.
use mathlib.Core.Path.{subst}
use oci_kernel.Prelude.{
  ℕ, zero, suc, ◌+◌, ◌*◌, ◌/◌, ◌<◌, ◌≤◌, ◌≢◌, ◌⊎◌, ◌≡◌, refl, arith, ap, ◌∙◌, Bool, true, false,
  Option, none, some, Option-cases, inl, inr, List, [], ◌∷◌, length, Outcome, returns, panics,
}
use oci_kernel.Memory.Frames.{
  MemoryRegion, BootInfoFrameAllocator, nth_usable, search_region, allocate_frame, new,
}
use oci_kernel.Memory.Heap.{heap_start, page_count, map_pages, init}
use oci_kernel.Memory.Heap.Distinct.{AreDistinct, init-AreDistinct}
use oci_kernel.Memory.Heap.Placed.{Takes, nothing, frame}

-- A frame is the number of the page of its address.
abbrev address_of : ℕ → ℕ
address_of addr = addr / 4096

abbrev memory : List MemoryRegion
memory =
    record { is_usable = true; first = 0x100000; last = 0x102000 }
    ∷ record { is_usable = false; first = 0x102000; last = 0x200000 }
    ∷ record { is_usable = true; first = 0x200000; last = 0x200000 + 4096 * 4096 }
    ∷ []

-- The first mapping takes a frame for a table.
first_taken : Option ℕ × BootInfoFrameAllocator → Option BootInfoFrameAllocator
first_taken (none, a) = none
first_taken (some f, a) = some a

map_to : List (ℕ × ℕ) → ℕ → ℕ → BootInfoFrameAllocator → Option BootInfoFrameAllocator
map_to [] page f a = first_taken (allocate_frame address_of a)
map_to (m ∷ mapped) page f a = some a

map_to-Takes :
    (mapped : List (ℕ × ℕ)) (page f : ℕ) (a b : BootInfoFrameAllocator)
    → map_to mapped page f a ≡ some b
    → Takes address_of a b
unfolding map_to first_taken
map_to-Takes [] page f a b h =
    let taken = (allocate_frame address_of a).1 in
    elim (Option-cases (allocate_frame address_of a).0) [
      | inl e ↦ absurd (ground arith)
      | inr (g, e) ↦
          let same : taken ≡ b = ground arith in
          frame g nothing (ap (λ o. (o, taken)) e ∙ ap (λ t. (some g, t)) same)
    ]
map_to-Takes (m ∷ mapped) page f a b h =
    let same : a ≡ b = ground arith in subst (Takes address_of a) same nothing

is_returned : {X : Type 0} → Outcome X → Bool
is_returned (returns x) = true
is_returned panics = false

returned : {X : Type 0} (o : Outcome X) → is_returned o ≡ true → (x : X) × (o ≡ returns x)
unfolding is_returned
returned (returns x) e = (x, refl)
returned panics e = absurd (ground arith)

mapped_all : is_returned (init address_of map_to (new memory)) ≡ true
unfolding is_returned init map_to first_taken new page_count map_pages allocate_frame search_region
    nth_usable
mapped_all = refl

abbrev heap :
    (r : List (ℕ × ℕ) × BootInfoFrameAllocator) × (init address_of map_to (new memory) ≡ returns r)
heap = returned (init address_of map_to (new memory)) mapped_all

separates : (x y : ℕ) → x + 4096 ≤ y → address_of x ≢ address_of y
separates x y h = λ e. omega arith

-- The two usable regions.
apart :
    (i j : ℕ) (r s : MemoryRegion)
    → i < j
    → nth_usable memory i ≡ some r
    → nth_usable memory j ≡ some s
    → (r.last ≤ s.first) ⊎ (s.last ≤ r.first)
unfolding nth_usable
apart zero zero r s h e f = absurd (omega arith)
apart zero (suc zero) r s h e f = inl (ground arith)
apart zero (suc (suc j)) r s h e f = absurd (ground arith)
apart (suc i) zero r s h e f = absurd (omega arith)
apart (suc i) (suc zero) r s h e f = absurd (omega arith)
apart (suc i) (suc (suc j)) r s h e f = absurd (ground arith)

init-AreDistinct_example : (length heap.0.0 ≡ 2048) × AreDistinct heap_start heap.0.0
unfolding new
init-AreDistinct_example =
    init-AreDistinct address_of map_to (new memory) heap.0.0 heap.0.1 separates apart map_to-Takes
      heap.1
