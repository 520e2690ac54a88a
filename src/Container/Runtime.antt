-- ===== src/Container/Runtime.antt =====
-- kernel/src/container/runtime.rs: the life cycle of a container. The counter `NEXT_ID`, a `u64`
-- that wraps, is passed through.
pub mod Lifecycle
pub mod Limits
use oci_kernel.Prelude.{ℕ, ◌+◌, ◌*◌, ◌%◌, ◌^◌, Bool, ◌==◌, if◌then◌else◌, List, [], Result, ok, err}
use oci_kernel.Isolation.Cgroup
use oci_kernel.Isolation.Cgroup.{CgroupHandle}
use oci_kernel.Isolation.Namespace.{Namespace, new_isolated}
use oci_kernel.Isolation.Seccomp.{SeccompFilter, default_policy}
use oci_kernel.Fs.Overlay
use oci_kernel.Fs.Overlay.{OverlayMount}
use oci_kernel.Container.Spec.{ContainerSpec}

-- `NEXT_ID.fetch_add(1)`: the value and the counter after it.
unfoldable pub next_id : ℕ → ℕ × ℕ
next_id counter = (counter, (counter + 1) % 2 ^ 64)

pub data ContainerState : Type 0 where
  created running stopping stopped : ContainerState

pub record Container : Type 0 where
  pub id : ℕ
  pub state : ContainerState
  pub spec : ContainerSpec
  pub namespace : Namespace
  pub cgroup : CgroupHandle
  pub seccomp : SeccompFilter
  pub rootfs : OverlayMount

unfoldable pub memory_limit_of : ContainerSpec → ℕ
memory_limit_of spec =
    if spec.resources.memory_bytes == 0 then 256 * 1024 * 1024 else spec.resources.memory_bytes

unfoldable pub create : ContainerSpec → ℕ → Container × ℕ
unfolding next_id memory_limit_of
create spec counter =
    let (id, counter') = next_id counter in
    (
      record {
        id = id;
        state = created;
        spec = spec;
        namespace = new_isolated;
        cgroup = Cgroup.new (memory_limit_of spec);
        seccomp = default_policy;
        rootfs = Overlay.new [];
      },
      counter',
    )

pub data LifecycleError : Type 0 where
  not_in_created_state not_in_running_state : LifecycleError

unfoldable pub start : Container → Result (Unit {0}) LifecycleError × Container
start c = elim c.state [
  | created ↦ (ok tt, record c { state = running })
  | running ↦ (err not_in_created_state, c)
  | stopping ↦ (err not_in_created_state, c)
  | stopped ↦ (err not_in_created_state, c)
]

unfoldable pub stop : Container → Result (Unit {0}) LifecycleError × Container
stop c = elim c.state [
  | running ↦ (ok tt, record c { state = stopping })
  | created ↦ (err not_in_running_state, c)
  | stopping ↦ (err not_in_running_state, c)
  | stopped ↦ (err not_in_running_state, c)
]

unfoldable pub mark_stopped : Container → Container
mark_stopped c = record c { state = stopped }
