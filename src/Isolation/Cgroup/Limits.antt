-- ===== src/Isolation/Cgroup/Limits.antt =====
-- The limits of kernel/src/isolation/cgroup.rs hold along every run of a caller that checks before
-- it charges, as the comments of the source ask.
use oci_kernel.Prelude.{
  ℕ, ◌+◌, ◌≤◌, ◌<◌, ◌≡◌, ◌↔◌, ◌⊎◌, refl, List, [], ◌∷◌, arith, Result, ok, err,
}
use oci_kernel.Isolation.Cgroup.{
  CgroupError, CgroupHandle, memory_limit_reached, usize_max, new, check_memory, charge_memory,
  release_memory, check_pids, charge_pid, release_pid,
}

-- What the caller does with the handle.
pub data Op : Type 0 where
  alloc : ℕ → Op
  dealloc : ℕ → Op
  spawn : Op
  exit : Op

abbrev guarded : Result (Unit {0}) CgroupError → CgroupHandle → CgroupHandle → CgroupHandle
guarded (ok _) before after = after
guarded (err _) before after = before

-- A charge follows only on a check that passes.
pub step : CgroupHandle → Op → CgroupHandle
step g (alloc bytes) = guarded (check_memory g bytes) g (charge_memory g bytes)
step g (dealloc bytes) = release_memory g bytes
step g spawn = guarded (check_pids g) g (charge_pid g)
step g exit = release_pid g

pub run : CgroupHandle → List Op → CgroupHandle
run g [] = g
run g (op ∷ ops) = run (step g op) ops

pub record IsWithin (g : CgroupHandle) : Type 0 where
  pub memory : g.memory_used ≤ g.memory_limit
  pub pids : g.pids_current ≤ g.pids_max

step-IsWithin : (g : CgroupHandle) (op : Op) → IsWithin g → IsWithin (step g op)
unfolding step check_memory charge_memory release_memory check_pids charge_pid release_pid
step-IsWithin g (alloc bytes) w = ground arith
step-IsWithin g (dealloc bytes) w = ground arith
step-IsWithin g spawn w = ground arith
step-IsWithin g exit w = ground arith

run-IsWithin : (ops : List Op) (g : CgroupHandle) → IsWithin g → IsWithin (run g ops)
unfolding run
run-IsWithin [] g w = w
run-IsWithin (op ∷ ops) g w = run-IsWithin ops (step g op) (step-IsWithin g op w)

step_limits :
    (g : CgroupHandle) (op : Op)
    → ((step g op).memory_limit ≡ g.memory_limit) × ((step g op).pids_max ≡ g.pids_max)
unfolding step charge_memory release_memory charge_pid release_pid
step_limits g (alloc bytes) = ground arith
step_limits g (dealloc bytes) = (refl, refl)
step_limits g spawn = ground arith
step_limits g exit = (refl, refl)

run_limits :
    (ops : List Op) (g : CgroupHandle)
    → ((run g ops).memory_limit ≡ g.memory_limit) × ((run g ops).pids_max ≡ g.pids_max)
unfolding run
run_limits [] g = (refl, refl)
run_limits (op ∷ ops) g = ground (arith, step_limits g op, run_limits ops (step g op))

-- Along every run of a fresh handle that checks before it charges, the memory in use stays within
-- the limit that the handle was made with, and at most 100 processes run.
pub run-new_limits :
    (limit : ℕ) (ops : List Op)
    → ((run (new limit) ops).memory_used ≤ limit) × ((run (new limit) ops).pids_current ≤ 100)
unfolding new
run-new_limits limit ops =
    let w = run-IsWithin ops (new limit) (record { memory = omega arith; pids = omega arith }) in
    let (l, m) = run_limits ops (new limit) in (rw l at w.memory, rw m at w.pids)

-- With a limit below the largest `usize`, the memory check passes exactly for a request that fits;
-- it fails, or charging the request and releasing it leaves the handle as it was.
pub check_memory_lem :
    (g : CgroupHandle) (bytes : ℕ)
    → g.memory_limit < usize_max
    → ((check_memory g bytes ≡ ok tt) ↔ (g.memory_used + bytes ≤ g.memory_limit))
      × ((check_memory g bytes ≡ err memory_limit_reached)
          ⊎ (release_memory (charge_memory g bytes) bytes ≡ g))
unfolding check_memory charge_memory release_memory
check_memory_lem g bytes h = (ground arith, ground arith)
