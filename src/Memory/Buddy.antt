-- ===== src/Memory/Buddy.antt =====
-- kernel/src/memory/buddy.rs: the buddy allocator. A `usize` is a number; `Outcome.panics` is the
-- index out of range of `self.free_lists[current_order]`.
pub mod Cover
pub mod Aligned
pub mod Order
pub mod Search
pub mod Allocate
pub mod Merge
pub mod Free
pub mod Use
pub mod Examples
use oci_kernel.Prelude.{
  ℕ, zero, suc, ◌+◌, ◌-◌, ◌*◌, ◌/◌, ◌%◌, ◌^◌, min, bit_xor, Option, none, some, List, [], ◌∷◌, ltb,
  leb, ◌==◌, if◌then◌else◌, get_or, set, push, pop, remove_at, replicate, position, Outcome,
  returns, panics,
}

abbrev pub max_order : ℕ
max_order = 11

pub record BuddyAllocator : Type 0 where
  pub free_lists : List (List ℕ)
  pub total_frames : ℕ

-- The array of `max_order` empty vectors.
abbrev pub empty : BuddyAllocator
empty = record { free_lists = replicate max_order []; total_frames = 0 }

-- `usize::next_power_of_two`: the first power of two that is not below `count`. Past 2 ^ 63 the
-- shift drops the bit and the result is 0 (a build with overflow checks panics there).
next_power_from : ℕ → ℕ → ℕ → ℕ
next_power_from zero p count = 0
next_power_from (suc bits) p count =
    let rest = next_power_from bits (p * 2) count in if leb count p then p else rest

next_power_of_two : ℕ → ℕ
unfolding next_power_from
next_power_of_two = next_power_from 64 1

-- `usize::trailing_zeros`, 64 for 0.
trailing_zeros_from : ℕ → ℕ → ℕ
trailing_zeros_from zero n = 0
trailing_zeros_from (suc bits) n =
    let rest = trailing_zeros_from bits (n / 2) in if n % 2 == 0 then suc rest else 0

-- `count.next_power_of_two().trailing_zeros()`
pub order_of : ℕ → ℕ
unfolding next_power_of_two trailing_zeros_from
order_of count = trailing_zeros_from 64 (next_power_of_two count)

-- `self.free_lists[o]` and the write back of a changed vector.
abbrev pub FreeLists : Type 0
FreeLists = List (List ℕ)

abbrev pub free_list : FreeLists → ℕ → List ℕ
free_list lists o = get_or lists o []

-- The inner loop of `allocate`, `for split_order in (order..o).rev()`: `splits` is `o - order`.
pub split_down : ℕ → ℕ → ℕ → FreeLists → FreeLists
split_down zero order frame lists = lists
split_down (suc splits) order frame lists =
    let split_order = order + splits in
    let buddy = frame + 2 ^ split_order in
    split_down splits order frame (set lists split_order (push (free_list lists split_order) buddy))

-- The outer loop, `for o in order..MAX_ORDER`: `left` is `MAX_ORDER - o`.
pub take_from : ℕ → ℕ → ℕ → FreeLists → Option (ℕ × FreeLists)
take_from zero o order lists = none
take_from (suc left) o order lists = elim (pop (free_list lists o)) [
  | none ↦ take_from left (o + 1) order lists
  | some (frame, others) ↦ some (frame, split_down (o - order) order frame (set lists o others))
]

hand_out : BuddyAllocator → Option (ℕ × FreeLists) → Option ℕ × BuddyAllocator
hand_out a none = (none, a)
hand_out a (some (frame, lists)) = (some frame, record a { free_lists = lists })

pub allocate : BuddyAllocator → ℕ → Option ℕ × BuddyAllocator
unfolding hand_out
allocate a count =
    let order = order_of count in
    hand_out a (take_from (max_order - order) order order a.free_lists)

pub record Merged : Type 0 where
  pub lists : FreeLists
  pub current : ℕ
  pub current_order : ℕ

-- The loop of `free`: `left` is `MAX_ORDER - current_order`, so that `zero` is the first `break`.
pub merge : ℕ → FreeLists → ℕ → ℕ → Merged
merge zero lists current order = record { lists = lists; current = current; current_order = order }
merge (suc left) lists current order =
    let buddy = bit_xor current (2 ^ order) in
    elim (position (λ f. f == buddy) (free_list lists order)) [
      | none ↦ record { lists = lists; current = current; current_order = order }
      | some pos ↦
          merge left (set lists order (remove_at pos (free_list lists order))) (min current buddy)
            (order + 1)
    ]

-- `self.free_lists[current_order].push(current)`
push_back : BuddyAllocator → Merged → Outcome BuddyAllocator
push_back a m =
    if ltb m.current_order max_order
    then returns (record a {
      free_lists = set m.lists m.current_order (push (free_list m.lists m.current_order) m.current);
    })
    else panics

pub free : BuddyAllocator → ℕ → ℕ → Outcome BuddyAllocator
unfolding push_back
free a frame count =
    push_back a (merge (max_order - order_of count) a.free_lists frame (order_of count))

add_frame : BuddyAllocator → ℕ → Outcome BuddyAllocator
unfolding free
add_frame a frame = free (record a { total_frames = a.total_frames + 1 }) frame 1

-- The loop of `new_from_frames`.
pub add_frames : BuddyAllocator → List ℕ → Outcome BuddyAllocator
unfolding add_frame
add_frames a [] = returns a
add_frames a (frame ∷ frames) = elim (add_frame a frame) [
  | panics ↦ panics
  | returns b ↦ add_frames b frames
]

pub new_from_frames : List ℕ → Outcome BuddyAllocator
unfolding add_frames
new_from_frames frames = add_frames empty frames
