-- ===== src/Process/Scheduler.antt =====
-- kernel/src/process/scheduler.rs: the round-robin scheduler, with the states of
-- kernel/src/process/mod.rs. A `ProcessId` is a newtype of `u64`; a `usize` wraps at 2 ^ 64.
pub mod Round
pub mod Fair
pub mod Examples
use oci_kernel.Prelude.{
  ℕ, zero, suc, ◌+◌, ◌-◌, ◌%◌, ◌^◌, Bool, true, false, ◌||◌, Option, none, some, List, [], ◌∷◌,
  ◌==◌, if◌then◌else◌, length, get_elem?, push,
}

pub data ProcessState : Type 0 where
  running ready blocked zombie : ProcessState

pub record Scheduler : Type 0 where
  pub queue : List (ℕ × ProcessState)
  pub current : ℕ

-- `usize::MAX`, so that the first `next` looks at index 0.
unfoldable pub new : Scheduler
new = record { queue = []; current = 2 ^ 64 - 1 }

unfoldable pub add : Scheduler → ℕ → ProcessState → Scheduler
add s pid state = record s { queue = push s.queue (pid, state) }

-- `state == ProcessState::Ready || state == ProcessState::Running`
abbrev pub is_runnable : ProcessState → Bool
is_runnable running = true
is_runnable ready = true
is_runnable blocked = false
is_runnable zombie = false

-- `self.current.wrapping_add(1) % len`
abbrev pub step : ℕ → ℕ → ℕ
step len current = (current + 1) % 2 ^ 64 % len

-- The loop of `next`, with `rounds` left. The index is below the length, so that the read of the
-- queue finds an entry; the `none` of the read would be a panic.
pub scan : ℕ → Scheduler → Option ℕ × Scheduler
scan zero s = (none, s)
scan (suc rounds) s =
    let at = step (length s.queue) s.current in
    let s' : Scheduler = record s { current = at } in
    let rest = scan rounds s' in
    elim (get_elem? s.queue at) [
      | none ↦ (none, s')
      | some (pid, state) ↦ if is_runnable state then (some pid, s') else rest
    ]

unfoldable pub next : Scheduler → Option ℕ × Scheduler
unfolding scan
next s = if length s.queue == 0 then (none, s) else scan (length s.queue) s

-- `iter_mut().find(|(p, _)| *p == pid)` and the write to that entry.
set_first : List (ℕ × ProcessState) → ℕ → ProcessState → List (ℕ × ProcessState)
set_first [] pid state = []
set_first ((p, old) ∷ queue) pid state =
    if p == pid then (p, state) ∷ queue else (p, old) ∷ set_first queue pid state

unfoldable pub set_state : Scheduler → ℕ → ProcessState → Scheduler
unfolding set_first
set_state s pid state = record s { queue = set_first s.queue pid state }
