-- ===== src/Memory/Buddy/Merge.antt =====
-- The merging loop of `BuddyAllocator::free` in kernel/src/memory/buddy.rs.
use oci_kernel.Prelude.{
  ℕ, zero, suc, ◌+◌, ◌^◌, ◌≤◌, ◌<◌, ◌≡◌, refl, ◌∙◌, Option-cases, inl, inr, some, List, arith, min,
  bit_xor, ◌==◌, pow-suc, length, length-set, set, position, remove_at,
}
use oci_kernel.Memory.Buddy.{FreeLists, free_list, max_order, Merged, merge}
use oci_kernel.Memory.Buddy.Cover.{
  inside, in_lists, inside-split, in_list-remove_at, in_lists-write,
}
use oci_kernel.Memory.Buddy.Aligned.{
  IsAligned, ListsAligned, AllAligned-remove_at, ListsAligned-at, ListsAligned-write, IsHalves,
  buddy-IsHalves,
}

-- What the loop keeps: the frames of the lists with those of the block in hand.
pub record IsMerged (ls : FreeLists) (current order : ℕ) (m : Merged) : Type 0 where
  pub sized : length m.lists ≡ length ls
  pub lists_aligned : ListsAligned 0 m.lists
  pub aligned : IsAligned m.current_order m.current
  pub order_le : m.current_order ≤ max_order
  pub low : m.current ≤ current
  pub high : current + 2 ^ order ≤ m.current + 2 ^ m.current_order
  pub covers :
      (x : ℕ)
      → in_lists 0 m.lists x + inside m.current_order m.current x
        ≡ in_lists 0 ls x + inside order current x

inside_halves :
    (o m f b x : ℕ) → IsHalves o m f b → inside (suc o) m x ≡ inside o f x + inside o b x
inside_halves o m f b x (a, low, inl (ef, eb)) = rw (ef, eb) (inside-split o m x)
inside_halves o m f b x (a, low, inr (eb, ef)) = rw (ef, eb) (omega (arith, inside-split o m x))

-- One round: the buddy leaves its list, and the block in hand doubles.
join_buddy :
    (ls : FreeLists) (order current pos x : ℕ)
    → order < length ls
    → IsAligned order current
    → position (λ f. f == bit_xor current (2 ^ order)) (free_list ls order) ≡ some pos
    → in_lists 0 (set ls order (remove_at pos (free_list ls order))) x
        + inside (suc order) (min current (bit_xor current (2 ^ order))) x
      ≡ in_lists 0 ls x + inside order current x
join_buddy ls order current pos x h a e =
    let (m, halves) = buddy-IsHalves order current a in
    rw halves.1 (
      omega (
        arith,
        inside_halves order m current (bit_xor current (2 ^ order)) x halves,
        in_lists-write ls order (remove_at pos (free_list ls order)) x h,
        in_list-remove_at order (free_list ls order) (bit_xor current (2 ^ order)) pos x e,
      ))

halves_within :
    (o m f b : ℕ) → IsHalves o m f b → (min f b ≤ f) × (f + 2 ^ o ≤ min f b + 2 ^ o + 2 ^ o)
halves_within o m f b (a, low, inl (ef, eb)) = (omega arith, omega arith)
halves_within o m f b (a, low, inr (eb, ef)) = (omega arith, omega arith)

IsMerged-stop :
    (ls : FreeLists) (current order : ℕ)
    → order ≤ max_order
    → ListsAligned 0 ls
    → IsAligned order current
    → IsMerged ls current order (record { lists = ls; current = current; current_order = order })
IsMerged-stop ls current order le la a = record {
  sized = refl;
  lists_aligned = la;
  aligned = a;
  order_le = le;
  low = omega arith;
  high = omega arith;
  covers = λ x. refl;
}

pub merge-IsMerged :
    (left : ℕ) (ls : FreeLists) (current order : ℕ)
    → order + left ≡ max_order
    → length ls ≡ max_order
    → ListsAligned 0 ls
    → IsAligned order current
    → IsMerged ls current order (merge left ls current order)
unfolding merge
merge-IsMerged zero ls current order e n la a = IsMerged-stop ls current order (omega arith) la a
merge-IsMerged (suc left) ls current order e n la a =
    elim (Option-cases (position (λ f. f == bit_xor current (2 ^ order)) (free_list ls order))) [
      | inl p ↦ rw (p, merge) (IsMerged-stop ls current order (omega arith) la a)
      | inr (pos, p) ↦
          let next : order + 1 ≡ suc order = omega arith in
          let others : List ℕ = remove_at pos (free_list ls order) in
          let ls' : FreeLists = set ls order others in
          let halves = buddy-IsHalves order current a in
          let whole : IsAligned (suc order) (min current (bit_xor current (2 ^ order))) =
            rw halves.1.1 halves.1.0 in
          let rest =
            merge-IsMerged left ls' (min current (bit_xor current (2 ^ order))) (order + 1)
              (omega arith) (length-set ls order others ∙ n)
              (ListsAligned-write order ls others la
                (AllAligned-remove_at order pos _ (ListsAligned-at order ls la)))
              (rw next whole) in
          let (low, high) = halves_within order halves.0 current _ halves.1 in
          let double : 2 ^ (order + 1) ≡ 2 ^ order + 2 ^ order = rw (next, pow-suc) (omega arith) in
          rw (p, merge)
            (record {
              sized = rest.sized ∙ length-set ls order others;
              lists_aligned = rest.lists_aligned;
              aligned = rest.aligned;
              order_le = rest.order_le;
              low = omega (arith, rest.low);
              high = omega (arith, rest.high);
              covers = λ x.
                  rest.covers x ∙ rw next (join_buddy ls order current pos x (omega arith) a p);
            })
    ]
