-- ===== src/Isolation/Seccomp.antt =====
-- kernel/src/isolation/seccomp.rs: the allow list of system calls.
use oci_kernel.Prelude.{ℕ, Bool, true, false, not, List, [], ◌∷◌, ◌≡◌, refl, any, ◌==◌}

pub data Syscall : Type 0 where
  read write open_file close stat seek : Syscall
  mmap munmap : Syscall
  spawn exit wait : Syscall
  socket connect bind listen accept send recv : Syscall
  load_kernel_module modify_other_namespace raw_disk_access kill_any : Syscall

-- The discriminants of `#[repr(u64)]`, by which the derived `==` compares.
unfoldable pub discriminant : Syscall → ℕ
discriminant read = 0
discriminant write = 1
discriminant open_file = 2
discriminant close = 3
discriminant stat = 4
discriminant seek = 5
discriminant mmap = 6
discriminant munmap = 7
discriminant spawn = 8
discriminant exit = 9
discriminant wait = 10
discriminant socket = 11
discriminant connect = 12
discriminant bind = 13
discriminant listen = 14
discriminant accept = 15
discriminant send = 16
discriminant recv = 17
discriminant load_kernel_module = 18
discriminant modify_other_namespace = 19
discriminant raw_disk_access = 20
discriminant kill_any = 21

pub record SeccompFilter : Type 0 where
  pub allowed : List Syscall

unfoldable pub default_policy : SeccompFilter
default_policy = record {
  allowed =
      read ∷ write ∷ open_file ∷ close ∷ stat ∷ seek ∷ mmap ∷ munmap ∷ spawn ∷ exit ∷ wait ∷ socket
      ∷ connect ∷ bind ∷ listen ∷ accept ∷ send ∷ recv ∷ [];
}

-- `self.allowed.contains(&syscall)`
unfoldable pub allow : SeccompFilter → Syscall → Bool
unfolding discriminant
allow f syscall = any (λ s. discriminant s == discriminant syscall) f.allowed

-- The calls that the source marks as dangerous, never allowed by the default policy.
abbrev pub is_dangerous : Syscall → Bool
is_dangerous load_kernel_module = true
is_dangerous modify_other_namespace = true
is_dangerous raw_disk_access = true
is_dangerous kill_any = true
is_dangerous _ = false

-- The default policy allows a call exactly when it is not one of the dangerous ones.
pub allow-default_policy : (s : Syscall) → allow default_policy s ≡ not (is_dangerous s)
unfolding allow default_policy
allow-default_policy load_kernel_module = refl
allow-default_policy _ = refl
