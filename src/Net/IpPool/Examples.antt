-- ===== src/Net/IpPool/Examples.antt =====
-- Runs of the pool of kernel/src/net/vswitch.rs, and its theorems at a concrete subnet.
use oci_kernel.Prelude.{ℕ, ◌+◌, ◌<◌, ◌^◌, ◌≡◌, refl, true, none, some, [], ◌∷◌, arith}
use oci_kernel.Prelude.Order.{nat_key}
use oci_kernel.Prelude.BTreeSet.{contains, insert}
use oci_kernel.Net.IpPool.{
  Ipv4Addr, IpPool, from_be_bytes, new, size, broadcast, allocate_from, allocate, available,
}
use oci_kernel.Net.IpPool.Address.{IsOctets}
use oci_kernel.Net.IpPool.Valid.{IsValid, new-IsValid}
use oci_kernel.Net.IpPool.Laws.{IsAllocated, allocate-IsLeast}

abbrev ip : ℕ → Ipv4Addr
ip n = record { a = 10; b = 1; c = 0; d = n }

-- 10.1.0.0/29 has the five addresses .2 to .6 for containers.
abbrev fresh : IpPool
fresh = new (ip 0) 29

abbrev one_used : IpPool
one_used = record { base = 167837696; mask = 29; used = 167837698 ∷ []; next = 167837699 }

allocate_first : allocate fresh ≡ (some (ip 2), one_used)
unfolding allocate allocate_from new broadcast contains insert
allocate_first = refl

fresh-IsValid : IsValid fresh
fresh-IsValid = new-IsValid (ip 0) 29 (unfold from_be_bytes in omega arith)

allocate-IsLeast_example : IsAllocated fresh (ip 2) one_used
allocate-IsLeast_example = allocate-IsLeast fresh (ip 2) one_used fresh-IsValid allocate_first

one_used-IsValid : IsValid one_used
one_used-IsValid = allocate-IsLeast_example.valid

subnet_fits : one_used.base + size one_used.mask < 2 ^ 32
unfolding size
subnet_fits = omega arith

ip-IsOctets : IsOctets (ip 2)
ip-IsOctets = omega arith

two_used : contains (from_be_bytes (ip 2)) one_used.used ≡ true
unfolding contains from_be_bytes
two_used = refl

-- The last subnet of the address space: the sum with the size stops at 2 ^ 32 - 1, so that one
-- address fewer is handed out than `available` counts.
abbrev last_subnet : IpPool
last_subnet = record {
  base = 4294967288;
  mask = 29;
  used = 4294967290 ∷ 4294967291 ∷ 4294967292 ∷ 4294967293 ∷ [];
  next = 4294967294;
}

last_subnet_disagrees : (available last_subnet ≡ true) × ((allocate last_subnet).0 ≡ none)
unfolding available allocate allocate_from broadcast
last_subnet_disagrees = (refl, refl)
