-- ===== src/Net/IpPool/Valid.antt =====
-- The invariant of the pool of kernel/src/net/vswitch.rs, and that each operation keeps it.
use oci_kernel.Prelude.{ℕ, ◌+◌, ◌^◌, ◌≤◌, ◌<◌, ◌≡◌, Bool-cases, inl, inr, true, arith, ltb}
use oci_kernel.Prelude.Order.{nat_key, eq_of_compare}
use oci_kernel.Prelude.BTreeSet
use oci_kernel.Prelude.BTreeSet.{contains, contains-insert, contains-remove}
use oci_kernel.Net.IpPool.{Ipv4Addr, IpPool, from_be_bytes, new, broadcast, release}
use oci_kernel.Net.IpPool.Bounds.{Within, contains_bounds, Within-insert, Within-remove}

-- `.0` is the network and `.1` the gateway.
abbrev pub first : IpPool → ℕ
first p = p.base + 2

-- Used addresses lie between the first one and the broadcast address, and the cursor has passed
-- only used ones.
pub record IsValid (p : IpPool) : Type 0 where
  pub fits : first p < 2 ^ 32
  pub within : Within (first p) (broadcast p) p.used
  pub started : first p ≤ p.next
  pub passed : (x : ℕ) → first p ≤ x → x < p.next → contains x p.used ≡ true

-- A fresh pool is well formed if its base and the two addresses after it fit in 32 bits.
pub new-IsValid :
    (base : Ipv4Addr) (mask : ℕ) → from_be_bytes base + 2 < 2 ^ 32 → IsValid (new base mask)
unfolding new
new-IsValid base mask h = record {
  fits = h;
  within = tt;
  started = omega arith;
  passed = λ x l u. absurd (omega arith);
}

pub broadcast-lt : (p : IpPool) → broadcast p < 2 ^ 32
unfolding broadcast
broadcast-lt p = omega arith

pass_one :
    (p : IpPool) (x : ℕ)
    → IsValid p
    → contains p.next p.used ≡ true
    → first p ≤ x
    → x < p.next + 1
    → contains x p.used ≡ true
pass_one p x v here l u = elim (Bool-cases (ltb x p.next)) [
  | inl before ↦ v.passed x l (ground arith)
  | inr at ↦ let e : x ≡ p.next = ground arith in rw e here
]

-- A used candidate is passed over.
unfoldable pub advance : IpPool → IpPool
advance p = record p { next = p.next + 1 }

pub advance-IsValid : (p : IpPool) → IsValid p → contains p.next p.used ≡ true → IsValid (advance p)
unfolding advance broadcast
advance-IsValid p v here = record {
  fits = v.fits;
  within = v.within;
  started = let s = v.started in omega arith;
  passed = λ x l u. pass_one p x v here l u;
}

-- A candidate that is free is taken.
unfoldable pub take : IpPool → IpPool
take p = record p { next = p.next + 1; used = BTreeSet.insert p.next p.used }

take_passed :
    (p : IpPool) (x : ℕ)
    → IsValid p
    → first p ≤ x
    → x < p.next + 1
    → contains x (BTreeSet.insert p.next p.used) ≡ true
take_passed p x v l u = ground (arith, contains-insert p.next x p.used, v.passed x l)

pub take-IsValid : (p : IpPool) → IsValid p → p.next < broadcast p → IsValid (take p)
unfolding take broadcast
take-IsValid p v room = record {
  fits = v.fits;
  within = Within-insert (first p) (broadcast p) p.next p.used v.started room v.within;
  started = let s = v.started in omega arith;
  passed = λ x l u. take_passed p x v l u;
}

release_passed :
    (p : IpPool) (ip : Ipv4Addr) (x : ℕ)
    → IsValid p
    → first p ≤ x
    → x < (release p ip).next
    → contains x (release p ip).used ≡ true
unfolding release
release_passed p ip x v l u = ground (
  arith,
  contains-remove (from_be_bytes ip) x p.used,
  v.passed x l,
  eq_of_compare x (from_be_bytes ip),
)

release_started : (p : IpPool) (ip : Ipv4Addr) → IsValid p → first p ≤ (release p ip).next
unfolding release
release_started p ip v =
    ground
      (arith, v.started, contains_bounds (first p) (broadcast p) (from_be_bytes ip) p.used v.within)

-- A release keeps the invariant, whatever the address.
pub release-IsValid : (p : IpPool) (ip : Ipv4Addr) → IsValid p → IsValid (release p ip)
unfolding release broadcast
release-IsValid p ip v = record {
  fits = v.fits;
  within = Within-remove (first p) (broadcast p) (from_be_bytes ip) p.used v.within;
  started = release_started p ip v;
  passed = λ x l u. release_passed p ip x v l u;
}
