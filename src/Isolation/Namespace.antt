-- ===== src/Isolation/Namespace.antt =====
-- kernel/src/isolation/namespace.rs: the namespaces of one container. A `u64` and a `u32` wrap; a
-- build with overflow checks panics at those points.
use oci_kernel.Prelude.{ℕ, zero, suc, ◌+◌, ◌-◌, ◌%◌, ◌^◌, ◌<◌, ◌≡◌, ◌↔◌, refl, List, [], ◌∷◌, arith}
use oci_kernel.Prelude.Text.{Text, text}

pub record PidNamespace : Type 0 where
  pub next_pid : ℕ

unfoldable pub new_pid : PidNamespace
new_pid = record { next_pid = 1 }

-- `ProcessId(self.next_pid)`, a newtype of `u64`.
unfoldable pub allocate : PidNamespace → ℕ × PidNamespace
allocate ns = (ns.next_pid, record { next_pid = (ns.next_pid + 1) % 2 ^ 64 })

pub record UtsNamespace : Type 0 where
  pub hostname : Text
  pub domainname : Text

unfoldable pub new_uts : UtsNamespace
new_uts = record { hostname = text "container"; domainname = [] }

pub record UserNamespace : Type 0 where
  pub uid_offset : ℕ
  pub gid_offset : ℕ

unfoldable pub new_user : UserNamespace
new_user = record { uid_offset = 100_000; gid_offset = 100_000 }

unfoldable pub container_to_host_uid : UserNamespace → ℕ → ℕ
container_to_host_uid ns uid = (ns.uid_offset + uid) % 2 ^ 32

unfoldable pub container_to_host_gid : UserNamespace → ℕ → ℕ
container_to_host_gid ns gid = (ns.gid_offset + gid) % 2 ^ 32

pub record IpcNamespace : Type 0 where
  pub id : ℕ

unfoldable pub new_ipc : IpcNamespace
new_ipc = record { id = 0 }

pub record Namespace : Type 0 where
  pub pid : PidNamespace
  pub uts : UtsNamespace
  pub user : UserNamespace
  pub ipc : IpcNamespace

unfoldable pub new_isolated : Namespace
unfolding new_pid new_uts new_user new_ipc
new_isolated = record { pid = new_pid; uts = new_uts; user = new_user; ipc = new_ipc }

-- The pids of the next `n` calls of `allocate`.
pub pids : ℕ → PidNamespace → List ℕ
pids zero ns = []
pids (suc n) ns = let (pid, ns') = allocate ns in pid ∷ pids n ns'

abbrev pub from_on : ℕ → ℕ → List ℕ
from_on zero k = []
from_on (suc n) k = k ∷ from_on n (k + 1)

pids_from : (n k : ℕ) → k + n < 2 ^ 64 → pids n (record { next_pid = k }) ≡ from_on n k
unfolding pids allocate
pids_from zero k h = refl
pids_from (suc n) k h =
    let e : (k + 1) % 2 ^ 64 ≡ k + 1 = omega arith in rw (e, pids_from n (k + 1) (omega arith)) refl

-- A fresh namespace hands out 1, 2, 3, ... in order, as long as a `u64` can count them.
pub pids-new : (n : ℕ) → n + 1 < 2 ^ 64 → pids n new_pid ≡ from_on n 1
unfolding new_pid
pids-new n h = pids_from n 1 (omega arith)

-- Two users of a container are two users of the host, and the one that becomes the host's root is
-- the user 2 ^ 32 - 100000, where the sum wraps.
pub new_user_uids :
    (u v : ℕ)
    → u < 2 ^ 32
    → v < 2 ^ 32
    → ((container_to_host_uid new_user u ≡ container_to_host_uid new_user v) ↔ (u ≡ v))
      × ((container_to_host_uid new_user u ≡ 0) ↔ (u ≡ 2 ^ 32 - 100_000))
unfolding container_to_host_uid new_user
new_user_uids u v hu hv = ((omega arith, omega arith), (omega arith, omega arith))
