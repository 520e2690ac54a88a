-- ===== src/Isolation/Examples.antt =====
-- The theorems on kernel/src/isolation at concrete inputs.
use oci_kernel.Prelude.{◌≤◌, ◌≡◌, refl, List, [], ◌∷◌}
use oci_kernel.Isolation.Cgroup
use oci_kernel.Isolation.Cgroup.{memory_limit_reached, check_memory, charge_memory, release_memory}
use oci_kernel.Isolation.Cgroup.Limits.{Op, alloc, dealloc, spawn, exit, run, run-new_limits}
use oci_kernel.Isolation.Namespace.{new_user, container_to_host_uid}

abbrev ops : List Op
ops = alloc 512 ∷ spawn ∷ alloc 600 ∷ dealloc 9999 ∷ exit ∷ exit ∷ []

run-new_limits_example :
    ((run (Cgroup.new 1024) ops).memory_used ≤ 1024)
    × ((run (Cgroup.new 1024) ops).pids_current ≤ 100)
run-new_limits_example = run-new_limits 1024 ops

half_used : Cgroup.CgroupHandle
half_used = charge_memory (Cgroup.new 1024) 512

half_limit : half_used.memory_limit ≡ 1024
unfolding half_used charge_memory Cgroup.new
half_limit = refl

-- The user of a container that the wrapped sum makes the host's root.
wrapped_root : container_to_host_uid new_user 4_294_867_296 ≡ 0
unfolding container_to_host_uid new_user
wrapped_root = refl
