-- ===== src/Net/IpPool/Address.antt =====
-- Addresses of kernel/src/net/vswitch.rs as octets and as `u32`.
use oci_kernel.Prelude.{ℕ, ◌^◌, ◌<◌, ◌≡◌, arith}
use oci_kernel.Net.IpPool.{Ipv4Addr, from_be_bytes, to_be_bytes}

pub record IsOctets (ip : Ipv4Addr) : Type 0 where
  pub a : ip.a < 256
  pub b : ip.b < 256
  pub c : ip.c < 256
  pub d : ip.d < 256

pub from_be_bytes-lt : (ip : Ipv4Addr) → IsOctets ip → from_be_bytes ip < 2 ^ 32
unfolding from_be_bytes
from_be_bytes-lt ip o = omega arith

pub to_be_bytes-IsOctets : (n : ℕ) → IsOctets (to_be_bytes n)
unfolding to_be_bytes
to_be_bytes-IsOctets n = omega arith

pub from_be_bytes-to_be_bytes : (n : ℕ) → n < 2 ^ 32 → from_be_bytes (to_be_bytes n) ≡ n
unfolding from_be_bytes to_be_bytes
from_be_bytes-to_be_bytes n h = omega arith

pub to_be_bytes-from_be_bytes : (ip : Ipv4Addr) → IsOctets ip → to_be_bytes (from_be_bytes ip) ≡ ip
unfolding from_be_bytes to_be_bytes
to_be_bytes-from_be_bytes ip o = ground arith
