-- ===== src/Container/Store/Counts.antt =====
-- The count of running containers of kernel/src/container/store.rs.
use oci_kernel.Prelude.{
  ℕ, ◌+◌, ◌<◌, ◌≤◌, ◌≡◌, refl, arith, if◌then◌else◌, Bool, true, Option, none, some, [], ◌∷◌, inl,
  inr, ltb, ◌&&◌, Option-cases,
}
use oci_kernel.Prelude.Text.{Text}
use oci_kernel.Prelude.Order.{nat_key, eq_of_compare}
use oci_kernel.Prelude.BTreeMap
use oci_kernel.Prelude.BTreeMap.{BTreeMap, get-insert, get-remove}
use oci_kernel.Container.Runtime.{ContainerState}
use oci_kernel.Container.Store.{
  ContainerRecord, ContainerStore, new, register, get, get_mut, remove, is_running, count_running,
  running_count,
}

-- All keys are above this one.
is_above : ℕ → BTreeMap ℕ ContainerRecord → Bool
is_above k [] = true
is_above k ((j, r) ∷ m) = ltb k j && is_above k m

-- Each key is below those after it.
is_sorted : BTreeMap ℕ ContainerRecord → Bool
is_sorted [] = true
is_sorted ((j, r) ∷ m) = is_above j m && is_sorted m

abbrev pub one_if_running : Option ContainerRecord → ℕ
one_if_running none = 0
one_if_running (some r) = if is_running r.state then 1 else 0

get-is_above :
    (k l : ℕ) (m : BTreeMap ℕ ContainerRecord)
    → k ≤ l
    → is_above l m ≡ true
    → BTreeMap.get k m ≡ none
unfolding is_above BTreeMap.get
get-is_above k l [] h a = refl
get-is_above k l ((j, r) ∷ m) h a = ground (arith, get-is_above k l m h)

insert-is_above :
    (l k : ℕ) (r : ContainerRecord) (m : BTreeMap ℕ ContainerRecord)
    → l < k
    → is_above l m ≡ true
    → is_above l (BTreeMap.insert k r m) ≡ true
unfolding is_above BTreeMap.insert
insert-is_above l k r [] h a = ground arith
insert-is_above l k r ((j, w) ∷ m) h a = ground (arith, insert-is_above l k r m h)

is_above_mono :
    (k l : ℕ) (m : BTreeMap ℕ ContainerRecord) → k ≤ l → is_above l m ≡ true → is_above k m ≡ true
unfolding is_above
is_above_mono k l [] h a = refl
is_above_mono k l ((j, r) ∷ m) h a = ground (arith, is_above_mono k l m h)

insert-is_sorted :
    (k : ℕ) (r : ContainerRecord) (m : BTreeMap ℕ ContainerRecord)
    → is_sorted m ≡ true
    → is_sorted (BTreeMap.insert k r m) ≡ true
unfolding is_sorted is_above BTreeMap.insert
insert-is_sorted k r [] s = ground arith
insert-is_sorted k r ((j, w) ∷ m) s =
    ground (
      arith,
      insert-is_sorted k r m,
      is_above_mono k j m,
      insert-is_above j k r m,
      eq_of_compare k j,
    )

remove-is_above :
    (l k : ℕ) (m : BTreeMap ℕ ContainerRecord)
    → is_above l m ≡ true
    → is_above l (BTreeMap.remove k m) ≡ true
unfolding is_above BTreeMap.remove
remove-is_above l k [] a = ground arith
remove-is_above l k ((j, w) ∷ m) a = ground (arith, remove-is_above l k m)

remove-is_sorted :
    (k : ℕ) (m : BTreeMap ℕ ContainerRecord)
    → is_sorted m ≡ true
    → is_sorted (BTreeMap.remove k m) ≡ true
unfolding is_sorted BTreeMap.remove
remove-is_sorted k [] s = ground arith
remove-is_sorted k ((j, w) ∷ m) s = ground (arith, remove-is_sorted k m, remove-is_above j k m)

count-insert :
    (k : ℕ) (r : ContainerRecord) (m : BTreeMap ℕ ContainerRecord)
    → is_sorted m ≡ true
    → count_running (BTreeMap.values (BTreeMap.insert k r m)) + one_if_running (BTreeMap.get k m)
      ≡ count_running (BTreeMap.values m) + one_if_running (some r)
unfolding is_sorted BTreeMap.insert BTreeMap.get BTreeMap.values count_running
count-insert k r [] s = ground arith
count-insert k r ((j, w) ∷ m) s =
    ground (arith, count-insert k r m, eq_of_compare k j, get-is_above k j m)

count-remove :
    (k : ℕ) (m : BTreeMap ℕ ContainerRecord)
    → is_sorted m ≡ true
    → count_running (BTreeMap.values (BTreeMap.remove k m)) + one_if_running (BTreeMap.get k m)
      ≡ count_running (BTreeMap.values m)
unfolding is_sorted BTreeMap.remove BTreeMap.get BTreeMap.values count_running
count-remove k [] s = ground arith
count-remove k ((j, w) ∷ m) s =
    ground (arith, count-remove k m, eq_of_compare k j, get-is_above k j m)

-- The store holds each identifier once.
pub IsValid : ContainerStore → Type 0
IsValid s = is_sorted s.entries ≡ true

pub new-IsValid : IsValid new
unfolding IsValid is_sorted new
new-IsValid = refl

pub register-IsValid :
    (s : ContainerStore) (id : ℕ) (image : Text) (state : ContainerState)
    → IsValid s
    → IsValid (register s id image state)
unfolding IsValid register
register-IsValid s id image state v =
    insert-is_sorted id (record { id = id; image = image; state = state }) s.entries v

pub get_mut-IsValid :
    (s : ContainerStore) (id : ℕ) (change : ContainerRecord → ContainerRecord)
    → IsValid s
    → IsValid (get_mut s id change)
unfolding IsValid get_mut
get_mut-IsValid s id change v = elim (Option-cases (BTreeMap.get id s.entries)) [
  | inl e ↦ ground arith
  | inr (r, e) ↦ ground (arith, insert-is_sorted id (change r) s.entries v)
]

pub remove-IsValid : (s : ContainerStore) (id : ℕ) → IsValid s → IsValid (remove s id).1
unfolding IsValid remove
remove-IsValid s id v = remove-is_sorted id s.entries v

-- Registering a container counts it if it runs, and no longer counts the one it replaces.
pub running_count-register :
    (s : ContainerStore) (id : ℕ) (image : Text) (state : ContainerState)
    → IsValid s
    → running_count (register s id image state) + one_if_running (get s id)
      ≡ running_count s + (if is_running state then 1 else 0)
unfolding IsValid running_count register get
running_count-register s id image state v =
    count-insert id (record { id = id; image = image; state = state }) s.entries v

-- The container that `remove` gives back is no longer counted.
pub running_count-remove :
    (s : ContainerStore) (id : ℕ)
    → IsValid s
    → running_count (remove s id).1 + one_if_running (remove s id).0 ≡ running_count s
unfolding IsValid running_count remove
running_count-remove s id v = count-remove id s.entries v

-- A change through `get_mut` counts the record as it is after it, and touches the count of no other.
pub running_count-get_mut :
    (s : ContainerStore) (id : ℕ) (change : ContainerRecord → ContainerRecord)
    → IsValid s
    → running_count (get_mut s id change) + one_if_running (get s id)
      ≡ running_count s + one_if_running (get (get_mut s id change) id)
unfolding IsValid running_count get_mut get
running_count-get_mut s id change v = elim (Option-cases (BTreeMap.get id s.entries)) [
  | inl e ↦ ground arith
  | inr (r, e) ↦
      ground (arith, count-insert id (change r) s.entries v, get-insert id id (change r) s.entries)
]
