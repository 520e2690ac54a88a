-- ===== src/Container/Store.antt =====
-- kernel/src/container/store.rs: the registry of all containers.
pub mod Counts
use oci_kernel.Prelude.{ℕ, ◌+◌, Bool, true, false, Option, none, some, List, [], ◌∷◌}
use oci_kernel.Prelude.Text.{Text}
use oci_kernel.Prelude.Order.{nat_key}
use oci_kernel.Prelude.BTreeMap
use oci_kernel.Prelude.BTreeMap.{BTreeMap}
use oci_kernel.Container.Runtime.{ContainerState, created, running, stopping, stopped}

pub record ContainerRecord : Type 0 where
  pub id : ℕ
  pub image : Text
  pub state : ContainerState

pub record ContainerStore : Type 0 where
  pub entries : BTreeMap ℕ ContainerRecord

unfoldable pub new : ContainerStore
new = record { entries = [] }

unfoldable pub register : ContainerStore → ℕ → Text → ContainerState → ContainerStore
register s id image state = record {
  entries = BTreeMap.insert id (record { id = id; image = image; state = state }) s.entries;
}

unfoldable pub get : ContainerStore → ℕ → Option ContainerRecord
get s id = BTreeMap.get id s.entries

-- What the caller writes through the reference that `get_mut` gives.
unfoldable pub get_mut : ContainerStore → ℕ → (ContainerRecord → ContainerRecord) → ContainerStore
get_mut s id change = elim (BTreeMap.get id s.entries) [
  | none ↦ s
  | some r ↦ record { entries = BTreeMap.insert id (change r) s.entries }
]

unfoldable pub remove : ContainerStore → ℕ → Option ContainerRecord × ContainerStore
remove s id = (BTreeMap.get id s.entries, record { entries = BTreeMap.remove id s.entries })

unfoldable pub is_running : ContainerState → Bool
is_running running = true
is_running created = false
is_running stopping = false
is_running stopped = false

unfoldable pub count_running : List ContainerRecord → ℕ
count_running [] = 0
count_running (r ∷ rs) = elim (is_running r.state) [
  | true ↦ 1 + count_running rs
  | false ↦ count_running rs
]

unfoldable pub running_count : ContainerStore → ℕ
running_count s = count_running (BTreeMap.values s.entries)

unfoldable pub all : ContainerStore → List ContainerRecord
all s = BTreeMap.values s.entries
