-- ===== src/Isolation/Cgroup.antt =====
-- kernel/src/isolation/cgroup.rs: the resource limits of one container. A `usize` is a number below
-- 2 ^ 64.
pub mod Limits
use oci_kernel.Prelude.{ℕ, ◌+◌, ◌-◌, ◌^◌, min, ltb, leb, if◌then◌else◌, Result, ok, err}

pub data CgroupError : Type 0 where
  memory_limit_reached pid_limit_reached : CgroupError

pub record CgroupHandle : Type 0 where
  pub memory_limit : ℕ
  pub memory_used : ℕ
  pub cpu_shares : ℕ
  pub pids_max : ℕ
  pub pids_current : ℕ

abbrev pub usize_max : ℕ
usize_max = 2 ^ 64 - 1

abbrev saturating_add : ℕ → ℕ → ℕ
saturating_add a b = min (a + b) usize_max

unfoldable pub new : ℕ → CgroupHandle
new memory_limit = record {
  memory_limit = memory_limit;
  memory_used = 0;
  cpu_shares = 1024;
  pids_max = 100;
  pids_current = 0;
}

unfoldable pub check_memory : CgroupHandle → ℕ → Result (Unit {0}) CgroupError
check_memory g request =
    if ltb g.memory_limit (saturating_add g.memory_used request)
    then err memory_limit_reached
    else ok tt

unfoldable pub charge_memory : CgroupHandle → ℕ → CgroupHandle
charge_memory g bytes = record g { memory_used = saturating_add g.memory_used bytes }

-- `saturating_sub` is subtraction that stops at 0.
unfoldable pub release_memory : CgroupHandle → ℕ → CgroupHandle
release_memory g bytes = record g { memory_used = g.memory_used - bytes }

unfoldable pub check_pids : CgroupHandle → Result (Unit {0}) CgroupError
check_pids g = if leb g.pids_max g.pids_current then err pid_limit_reached else ok tt

unfoldable pub charge_pid : CgroupHandle → CgroupHandle
charge_pid g = record g { pids_current = saturating_add g.pids_current 1 }

unfoldable pub release_pid : CgroupHandle → CgroupHandle
release_pid g = record g { pids_current = g.pids_current - 1 }
