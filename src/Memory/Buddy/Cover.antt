-- ===== src/Memory/Buddy/Cover.antt =====
-- How often the free lists of kernel/src/memory/buddy.rs hold a given frame: the abstract view of
-- the allocator as a multiset of frames.
use oci_kernel.Prelude.{
  ℕ, zero, suc, ◌+◌, ◌^◌, ◌<◌, ◌≡◌, ap, ◌&&◌, some, List, [], ◌∷◌, arith, ltb, leb, ◌==◌,
  if◌then◌else◌, length, get_or, set, push, pop, pop-eq-some, remove_at, position, pow-suc,
}
use oci_kernel.Memory.Buddy.{BuddyAllocator, FreeLists}

-- 1 if the block of order `o` at `f` holds the frame `x`.
unfoldable pub inside : ℕ → ℕ → ℕ → ℕ
inside o f x = if leb f x && ltb x (f + 2 ^ o) then 1 else 0

unfoldable pub in_list : ℕ → List ℕ → ℕ → ℕ
in_list o [] x = 0
in_list o (f ∷ fs) x = inside o f x + in_list o fs x

unfoldable pub in_lists : ℕ → FreeLists → ℕ → ℕ
in_lists o [] x = 0
in_lists o (fs ∷ ls) x = in_list o fs x + in_lists (suc o) ls x

-- The number of free blocks that hold the frame `x`.
unfoldable pub free_count : BuddyAllocator → ℕ → ℕ
unfolding in_lists in_list
free_count a x = in_lists 0 a.free_lists x

-- A block is its two halves.
pub inside-split : (o f x : ℕ) → inside (suc o) f x ≡ inside o f x + inside o (f + 2 ^ o) x
unfolding inside
inside-split o f x = ground (arith, pow-suc 2 o)

pub in_list-push :
    (o : ℕ) (fs : List ℕ) (f x : ℕ) → in_list o (push fs f) x ≡ in_list o fs x + inside o f x
unfolding in_list
in_list-push o [] f x = omega arith
in_list-push o (g ∷ fs) f x = omega (arith, in_list-push o fs f x)

pub in_list-pop :
    (o : ℕ) (fs : List ℕ) (f : ℕ) (rest : List ℕ) (x : ℕ)
    → pop fs ≡ some (f, rest)
    → in_list o fs x ≡ inside o f x + in_list o rest x
in_list-pop o fs f rest x h =
    omega (arith, ap (λ l. in_list o l x) (pop-eq-some fs f rest h), in_list-push o rest f x)

pub in_list-remove_at :
    (o : ℕ) (fs : List ℕ) (b p x : ℕ)
    → position (λ f. f == b) fs ≡ some p
    → in_list o fs x ≡ inside o b x + in_list o (remove_at p fs) x
unfolding in_list
in_list-remove_at o [] b p x h = cc
in_list-remove_at o (f ∷ fs) b zero x h = ground arith
in_list-remove_at o (f ∷ fs) b (suc p) x h = ground (arith, in_list-remove_at o fs b p x)

pub in_lists-set :
    (o : ℕ) (ls : FreeLists) (k : ℕ) (fs : List ℕ) (x : ℕ)
    → k < length ls
    → in_lists o (set ls k fs) x + in_list (o + k) (get_or ls k []) x
      ≡ in_lists o ls x + in_list (o + k) fs x
unfolding in_lists
in_lists-set o [] k fs x h = absurd (omega arith)
in_lists-set o (gs ∷ ls) zero fs x h = let e : o + 0 ≡ o = omega arith in rw e (omega arith)
in_lists-set o (gs ∷ ls) (suc k) fs x h =
    let e : o + suc k ≡ suc o + k = omega arith in
    rw e (omega (arith, in_lists-set (suc o) ls k fs x (omega arith)))

-- The same for the array of all the lists.
pub in_lists-write :
    (ls : FreeLists) (k : ℕ) (fs : List ℕ) (x : ℕ)
    → k < length ls
    → in_lists 0 (set ls k fs) x + in_list k (get_or ls k []) x ≡ in_lists 0 ls x + in_list k fs x
in_lists-write ls k fs x h = let e : 0 + k ≡ k = omega arith in rw e at (in_lists-set 0 ls k fs x h)
