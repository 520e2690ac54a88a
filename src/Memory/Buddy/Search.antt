-- ===== src/Memory/Buddy/Search.antt =====
-- The two loops of `allocate` in kernel/src/memory/buddy.rs: the search for a list that is not
-- empty, and the split of the block that it gives.
use oci_kernel.Prelude.{
  ℕ, zero, suc, ◌+◌, ◌-◌, ◌^◌, ◌≤◌, ◌<◌, ◌≡◌, refl, ap, Option, none, some, List, arith, ◌==◌,
  length, set, push, pop, length-set, Option-cases, inl, inr, Bool-cases,
}
use oci_kernel.Memory.Buddy.{FreeLists, free_list, split_down, take_from}
use oci_kernel.Memory.Buddy.Cover.{
  inside, in_lists, inside-split, in_list-push, in_list-pop, in_lists-write,
}
use oci_kernel.Memory.Buddy.Aligned.{
  IsAligned, AllAligned, ListsAligned, AllAligned-push, AllAligned-pop, ListsAligned-write,
  ListsAligned-at, IsAligned-weaken, IsAligned-upper,
}

pub length-split_down :
    (splits order frame : ℕ) (ls : FreeLists)
    → length (split_down splits order frame ls) ≡ length ls
unfolding split_down
length-split_down zero order frame ls = refl
length-split_down (suc k) order frame ls =
    omega
      (arith, length-split_down k order frame (set ls (order + k) _), length-set ls (order + k) _)

-- Splitting puts back all of the block but its first `2 ^ order` frames.
split_down-cover :
    (splits order frame x : ℕ) (ls : FreeLists)
    → order + splits ≤ length ls
    → in_lists 0 (split_down splits order frame ls) x + inside order frame x
      ≡ in_lists 0 ls x + inside (order + splits) frame x
unfolding split_down
split_down-cover zero order frame x ls h = let e : order + 0 ≡ order = omega arith in rw e refl
split_down-cover (suc k) order frame x ls h =
    let o = order + k in
    let e : order + suc k ≡ suc o = omega arith in
    let fs : List ℕ = push (free_list ls o) (frame + 2 ^ o) in
    let ls' : FreeLists = set ls o fs in
    let split : in_lists 0 (split_down k order frame ls') x + inside order frame x
        ≡ in_lists 0 ls x + inside (suc o) frame x =
      omega (
        arith,
        split_down-cover k order frame x ls' (omega (arith, length-set ls o fs)),
        in_lists-write ls o fs x (omega arith),
        in_list-push o (free_list ls o) (frame + 2 ^ o) x,
        inside-split o frame x,
      ) in
    rw e split

split_down-aligned :
    (splits order frame : ℕ) (ls : FreeLists)
    → IsAligned (order + splits) frame
    → ListsAligned 0 ls
    → ListsAligned 0 (split_down splits order frame ls)
unfolding split_down
split_down-aligned zero order frame ls b a = a
split_down-aligned (suc k) order frame ls b a =
    let o = order + k in
    let e : order + suc k ≡ suc o = omega arith in
    let e' : suc o ≡ o + 1 = omega arith in
    let b' : IsAligned (suc o) frame = rw e at b in
    let at_o : AllAligned o (free_list ls o) = ListsAligned-at o ls a in
    split_down-aligned k order frame _ (IsAligned-weaken o 1 frame (rw e' at b')) (
      ListsAligned-write o ls _ a
        (AllAligned-push o (free_list ls o) (frame + 2 ^ o) at_o (IsAligned-upper o frame b')))

-- A block taken from a list of its order leaves the frames of the others.
take_block-cover :
    (ls : FreeLists) (o frame : ℕ) (rest : List ℕ) (x : ℕ)
    → o < length ls
    → pop (free_list ls o) ≡ some (frame, rest)
    → in_lists 0 ls x ≡ in_lists 0 (set ls o rest) x + inside o frame x
take_block-cover ls o frame rest x h e =
    omega (arith, in_lists-write ls o rest x h, in_list-pop o (free_list ls o) frame rest x e)

-- What a successful search did: the first list that is not empty lost its last block.
pub record IsTaken (left o order : ℕ) (ls : FreeLists) (f : ℕ) (ls' : FreeLists) : Type 0 where
  pub at : ℕ
  pub rest : List ℕ
  pub from : o ≤ at
  pub to : at < o + left
  pub popped : pop (free_list ls at) ≡ some (f, rest)
  pub split : ls' ≡ split_down (at - order) order f (set ls at rest)
  pub skipped : (j : ℕ) → o ≤ j → j < at → pop (free_list ls j) ≡ none

skip_one :
    (o at : ℕ) (ls : FreeLists)
    → pop (free_list ls o) ≡ none
    → ((j : ℕ) → o + 1 ≤ j → j < at → pop (free_list ls j) ≡ none)
    → (j : ℕ) → o ≤ j
    → j < at
    → pop (free_list ls j) ≡ none
skip_one o at ls p later j lo hi = elim (Bool-cases (o == j)) [
  | inl same ↦ let e : o ≡ j = ground arith in rw e at p
  | inr other ↦ later j (ground arith) hi
]

pub take_from-IsTaken :
    (left o order : ℕ) (ls : FreeLists) (f : ℕ) (ls' : FreeLists)
    → take_from left o order ls ≡ some (f, ls')
    → IsTaken left o order ls f ls'
unfolding take_from
take_from-IsTaken zero o order ls f ls' e = cc
take_from-IsTaken (suc left) o order ls f ls' e =
    here (take_from-IsTaken left (o + 1) order ls f ls') (pop (free_list ls o)) refl e
  where
    here :
        (take_from left (o + 1) order ls ≡ some (f, ls') → IsTaken left (o + 1) order ls f ls')
        → (r : Option (ℕ × List ℕ)) → pop (free_list ls o) ≡ r
        → elim r as (λ _. Option (ℕ × FreeLists)) [
          | none ↦ take_from left (o + 1) order ls
          | some (frame, others) ↦
              some (frame, split_down (o - order) order frame (set ls o others))
        ]
          ≡ some (f, ls')
        → IsTaken (suc left) o order ls f ls'
    here later none p q =
        let t = later q in
        record {
          at = t.at;
          rest = t.rest;
          from = omega arith;
          to = omega arith;
          popped = t.popped;
          split = t.split;
          skipped = skip_one o t.at ls p t.skipped;
        }
    here later (some (frame, others)) p q =
        let same : frame ≡ f = cc q in
        record {
          at = o;
          rest = others;
          from = omega arith;
          to = omega arith;
          popped = cc p;
          split = cc q;
          skipped = λ j lo hi. absurd (omega arith);
        }

-- The whole array, and so every order from `order_of count`, was searched.
pub take_from-none :
    (left o order : ℕ) (ls : FreeLists)
    → take_from left o order ls ≡ none
    → (j : ℕ) → o ≤ j
    → j < o + left
    → pop (free_list ls j) ≡ none
unfolding take_from
take_from-none zero o order ls e j lo hi = absurd (omega arith)
take_from-none (suc left) o order ls e j lo hi = elim (Option-cases (pop (free_list ls o))) [
  | inl p ↦
      skip_one o (o + suc left) ls p
        (λ k lo' hi'.
          take_from-none left (o + 1) order ls (rw (p, take_from) at e) k lo' (omega arith))
        j lo hi
  | inr (taken, p) ↦ cc (rw (p, take_from) at e)
]

pub take_from-eq-none :
    (left o order : ℕ) (ls : FreeLists)
    → ((j : ℕ) → o ≤ j → j < o + left → pop (free_list ls j) ≡ none)
    → take_from left o order ls ≡ none
unfolding take_from
take_from-eq-none zero o order ls e = refl
take_from-eq-none (suc left) o order ls e =
    rw (e o (omega arith) (omega arith), take_from)
      (take_from-eq-none left (o + 1) order ls (λ j lo hi. e j (omega arith) (omega arith)))

module _ {left o order : ℕ} {ls : FreeLists} {f : ℕ} {ls' : FreeLists} (lo : order ≤ o)
    (hi : o + left ≤ length ls) (t : IsTaken left o order ls f ls') where
  pub IsTaken-length : length ls' ≡ length ls
  IsTaken-length =
      let written = set ls t.at t.rest in
      omega (
        arith,
        ap length t.split,
        length-split_down (t.at - order) order f written,
        length-set ls t.at t.rest,
      )

  -- The search takes exactly the frames of the block of order `order` at `f`.
  pub IsTaken-cover : (x : ℕ) → in_lists 0 ls x ≡ in_lists 0 ls' x + inside order f x
  IsTaken-cover x =
      let e : order + (t.at - order) ≡ t.at = omega arith in
      let written : FreeLists = set ls t.at t.rest in
      let splits =
        split_down-cover (t.at - order) order f x written
          (omega (arith, length-set ls t.at t.rest)) in
      rw t.split
        (omega (arith, rw e at splits, take_block-cover ls t.at f t.rest x (omega arith) t.popped))

  pub IsTaken-IsAligned : ListsAligned 0 ls → IsAligned order f × ListsAligned 0 ls'
  IsTaken-IsAligned a =
      let e : order + (t.at - order) ≡ t.at = omega arith in
      let got =
        AllAligned-pop t.at (free_list ls t.at) f t.rest t.popped (ListsAligned-at t.at ls a) in
      let start : IsAligned (order + (t.at - order)) f = rw e got.0 in
      (
        IsAligned-weaken order (t.at - order) f start,
        rw t.split (
            split_down-aligned (t.at - order) order f _ start
              (ListsAligned-write t.at ls t.rest a got.1)),
      )
