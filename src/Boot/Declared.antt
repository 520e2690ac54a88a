-- ===== src/Boot/Declared.antt =====
-- The containers that the boot configuration of kernel/src/main.rs declares.
use oci_kernel.Prelude.{ℕ, ◌+◌, ◌≡◌, refl, arith, Bool, true, ltb, ◌&&◌, List, [], ◌∷◌, ◌++◌}
use oci_kernel.Prelude.BTreeMap
use oci_kernel.Prelude.BTreeMap.{BTreeMap}
use oci_kernel.Prelude.Order.{nat_key}
use oci_kernel.Container.Spec.{ContainerSpec, PortMapping, ActivePortForward}
use oci_kernel.Container.Runtime.{running}
use oci_kernel.Container.Store.{ContainerRecord}

-- The containers in the order of the configuration, numbered from `id` on, each of them running.
unfoldable pub declared : ℕ → List ContainerSpec → List ContainerRecord
declared id [] = []
declared id (spec ∷ specs) =
    record { id = id; image = spec.image; state = running } ∷ declared (id + 1) specs

unfoldable pub forwards_of : ℕ → List PortMapping → List ActivePortForward
forwards_of id [] = []
forwards_of id (pm ∷ pms) =
    record { container_id = id; host_port = pm.host; container_port = pm.container }
    ∷ forwards_of id pms

-- The ports of each container in turn.
unfoldable pub declared_forwards : ℕ → List ContainerSpec → List ActivePortForward
declared_forwards id [] = []
declared_forwards id (spec ∷ specs) = forwards_of id spec.ports ++ declared_forwards (id + 1) specs

-- All keys are below this one.
unfoldable pub is_below : ℕ → BTreeMap ℕ ContainerRecord → Bool
is_below k [] = true
is_below k ((j, r) ∷ m) = ltb j k && is_below k m

pub values-insert_last :
    (k : ℕ) (r : ContainerRecord) (m : BTreeMap ℕ ContainerRecord)
    → is_below k m ≡ true
    → BTreeMap.values (BTreeMap.insert k r m) ≡ BTreeMap.values m ++ (r ∷ [])
unfolding BTreeMap.values BTreeMap.insert is_below
values-insert_last k r [] h = refl
values-insert_last k r ((j, w) ∷ m) h = ground (arith, values-insert_last k r m)

pub is_below-insert :
    (k : ℕ) (r : ContainerRecord) (m : BTreeMap ℕ ContainerRecord)
    → is_below k m ≡ true
    → is_below (k + 1) (BTreeMap.insert k r m) ≡ true
unfolding BTreeMap.insert is_below
is_below-insert k r [] h = ground arith
is_below-insert k r ((j, w) ∷ m) h = ground (arith, is_below-insert k r m)
