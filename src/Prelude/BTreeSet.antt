-- ===== src/Prelude/BTreeSet.antt =====
-- `BTreeSet` as the list of its keys in order.
use Prim.Native.Nat.Ordering.{lt, eq, gt}
use mathlib.Core.Path.{◌≡◌, refl}
use mathlib.Core.Bool.{Bool, true, false}
use mathlib.Core.List.{List, [], ◌∷◌}
use native.Mathlib.Omega.{arith}
use oci_kernel.Prelude.Tests.{if◌then◌else◌}
use oci_kernel.Prelude.Order.{Key, ◌≟◌}

module _ {ℓ} {K : Type ℓ} ⦃o : Key K⦄ where
  unfoldable pub contains : K → List K → Bool
  contains k [] = false
  contains k (j ∷ s) = if k ≟ j then true else contains k s

  -- `BTreeSet::insert` without its result, which is whether the key was new.
  unfoldable pub insert : K → List K → List K
  insert k [] = k ∷ []
  insert k (j ∷ s) = elim (o.cmp k j) [ lt ↦ k ∷ j ∷ s | eq ↦ j ∷ s | gt ↦ j ∷ insert k s ]

  -- A key occurs once: taking out each occurrence is taking out that one.
  unfoldable pub remove : K → List K → List K
  remove k [] = []
  remove k (j ∷ s) = let rest = remove k s in if k ≟ j then rest else j ∷ rest

  pub contains-insert :
      (k j : K) (s : List K) → contains j (insert k s) ≡ (if j ≟ k then true else contains j s)
  unfolding contains insert
  contains-insert k j [] = refl
  contains-insert k j (i ∷ s) =
      ground (arith, contains-insert k j s, o.eq_of_cmp k i, o.eq_of_cmp j i)

  pub contains-remove :
      (k j : K) (s : List K) → contains j (remove k s) ≡ (if j ≟ k then false else contains j s)
  unfolding contains remove
  contains-remove k j [] = ground arith
  contains-remove k j (i ∷ s) = ground (
    arith,
    contains-remove k j s,
    o.eq_of_cmp k i,
    o.eq_of_cmp j i,
    o.eq_of_cmp j k,
    o.cmp_refl k,
  )
