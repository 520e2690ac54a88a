-- ===== src/Container/Runtime/Limits.antt =====
-- What `Container::create` of kernel/src/container/runtime.rs makes of a specification.
use oci_kernel.Prelude.{ℕ, suc, ◌+◌, ◌%◌, ◌^◌, ◌<◌, ◌≤◌, ◌≡◌, refl, arith, List, [], ◌∷◌}
use oci_kernel.Isolation.Cgroup.Limits.{Op, run, run-new_limits}
use oci_kernel.Isolation.Namespace.{from_on}
use oci_kernel.Container.Spec.{ContainerSpec}
use oci_kernel.Container.Runtime.{create, memory_limit_of, next_id}

-- Whatever a container of this specification does, its memory stays within what was asked for, or within 256 MB where nothing was, and its processes within 100, whatever number the specification asks for.
pub create_limits :
    (spec : ContainerSpec) (counter : ℕ) (ops : List Op)
    → ((run (create spec counter).0.cgroup ops).memory_used ≤ memory_limit_of spec)
      × ((run (create spec counter).0.cgroup ops).pids_current ≤ 100)
unfolding create
create_limits spec counter ops = run-new_limits (memory_limit_of spec) ops

-- The identifiers of containers made one after the other.
pub create_ids : List ContainerSpec → ℕ → List ℕ
create_ids [] counter = []
create_ids (spec ∷ specs) counter =
    let (c, counter') = create spec counter in c.id ∷ create_ids specs counter'

unfoldable pub count : List ContainerSpec → ℕ
count [] = 0
count (spec ∷ specs) = suc (count specs)

-- Containers made one after the other get consecutive identifiers, as long as the counter does not reach 2 ^ 64.
pub create_ids_consecutive :
    (specs : List ContainerSpec) (counter : ℕ)
    → counter + count specs < 2 ^ 64
    → create_ids specs counter ≡ from_on (count specs) counter
unfolding create_ids create next_id count
create_ids_consecutive [] counter h = refl
create_ids_consecutive (spec ∷ specs) counter h =
    let e : (counter + 1) % 2 ^ 64 ≡ counter + 1 = omega arith in
    rw (e, create_ids_consecutive specs (counter + 1) (omega arith)) refl
