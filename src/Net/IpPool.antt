-- ===== src/Net/IpPool.antt =====
-- kernel/src/net/vswitch.rs: IPv4 addresses and the allocation pool. A `u32` is a number below
-- 2 ^ 32 and wraps; a `u8` is a number below 256.
pub mod Address
pub mod Bounds
pub mod Valid
pub mod Laws
pub mod Available
pub mod Examples
use oci_kernel.Prelude.{
  ℕ, zero, suc, ◌+◌, ◌-◌, ◌*◌, ◌/◌, ◌%◌, ◌^◌, min, Bool, true, false, Option, none, some, List, [],
  ltb, if◌then◌else◌, length,
}
use oci_kernel.Prelude.Order.{nat_key}
use oci_kernel.Prelude.BTreeSet

-- `Ipv4Addr([u8; 4])`
pub record Ipv4Addr : Type 0 where
  pub a : ℕ
  pub b : ℕ
  pub c : ℕ
  pub d : ℕ

-- `u32::from_be_bytes(ip.octets())`
pub from_be_bytes : Ipv4Addr → ℕ
from_be_bytes ip = ip.a * 2 ^ 24 + ip.b * 2 ^ 16 + ip.c * 2 ^ 8 + ip.d

-- `Ipv4Addr::from(n.to_be_bytes())`
pub to_be_bytes : ℕ → Ipv4Addr
to_be_bytes n = record {
  a = n / 2 ^ 24 % 2 ^ 8;
  b = n / 2 ^ 16 % 2 ^ 8;
  c = n / 2 ^ 8 % 2 ^ 8;
  d = n % 2 ^ 8;
}

pub record IpPool : Type 0 where
  pub base : ℕ
  pub mask : ℕ
  pub used : List ℕ
  pub next : ℕ

-- A build with overflow checks panics where `b + 2` wraps.
pub new : Ipv4Addr → ℕ → IpPool
unfolding from_be_bytes
new base mask =
    let b = from_be_bytes base in
    record { base = b; mask = mask; used = []; next = (b + 2) % 2 ^ 32 }

-- `1u32.checked_shl(32u32.saturating_sub(mask)).unwrap_or(0)`
pub size : ℕ → ℕ
size mask = if ltb (32 - mask) 32 then 2 ^ (32 - mask) else 0

-- `self.base.saturating_add(size).saturating_sub(1)`
pub broadcast : IpPool → ℕ
unfolding size
broadcast p = min (p.base + size p.mask) (2 ^ 32 - 1) - 1

-- The loop of `allocate`: `left` is `max - self.next`, so that `zero` is the exit of the loop.
pub allocate_from : ℕ → IpPool → Option Ipv4Addr × IpPool
unfolding to_be_bytes
allocate_from zero p = (none, p)
allocate_from (suc left) p =
    let candidate = p.next in
    let rest = allocate_from left (record p { next = candidate + 1 }) in
    if BTreeSet.contains candidate p.used then rest else (
      some (to_be_bytes candidate),
      record p { next = candidate + 1; used = BTreeSet.insert candidate p.used },
    )

pub allocate : IpPool → Option Ipv4Addr × IpPool
allocate p = allocate_from (broadcast p - p.next) p

-- `self.used.remove(&n) && n < self.next`: the set changes even where the cursor does not.
pub release : IpPool → Ipv4Addr → IpPool
unfolding from_be_bytes
release p ip =
    let n = from_be_bytes ip in
    let next =
      if BTreeSet.contains n p.used then (if ltb n p.next then n else p.next) else p.next in
    record p { used = BTreeSet.remove n p.used; next = next }

pub available : IpPool → Bool
unfolding size
available p = ltb (length p.used) (size p.mask - 3)
