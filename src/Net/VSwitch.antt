-- ===== src/Net/VSwitch.antt =====
-- The virtual switch of kernel/src/net/vswitch.rs.
pub mod Examples
use oci_kernel.Prelude.{
  ℕ, ◌≡◌, refl, ap, arith, Bool, true, false, Bool-cases, inl, inr, not, ◌&&◌, any, ◌==◌,
  if◌then◌else◌, Option, none, some, List, [], ◌∷◌, ◌++◌,
}
use oci_kernel.Container.Spec.{ActivePortForward}
use oci_kernel.Net.IpPool.{Ipv4Addr}

pub data FirewallRule : Type 0 where
  block_container_to_host allow_nat_egress block_container_to_container : FirewallRule

pub record VSwitch : Type 0 where
  pub rules : List FirewallRule

unfoldable pub new : VSwitch
new = record {
  rules = block_container_to_host ∷ allow_nat_egress ∷ block_container_to_container ∷ [];
}

unfoldable pub allow_to_host : VSwitch → ℕ → Bool
allow_to_host v src = false

unfoldable pub allow_egress : VSwitch → ℕ → Ipv4Addr → Bool
allow_egress v src dst = true

unfoldable pub allow_container_to_container : VSwitch → ℕ → ℕ → Bool
allow_container_to_container v src dst = false

-- `rules.iter().find(…).map(…)`; the switch itself is not read.
unfoldable pub lookup_port_forward : VSwitch → List ActivePortForward → ℕ → Option (ℕ × ℕ)
lookup_port_forward v [] host_port = none
lookup_port_forward v (r ∷ rs) host_port =
    let rest = lookup_port_forward v rs host_port in
    if r.host_port == host_port then some (r.container_id, r.container_port) else rest

-- No rule of the list is for this port.
unfoldable pub is_free : List ActivePortForward → ℕ → Bool
is_free [] host_port = true
is_free (r ∷ rs) host_port = not (r.host_port == host_port) && is_free rs host_port

module _ (v : VSwitch) where
  -- A port leads to the first rule for it: rules for other ports before it and any rules after it do not matter.
  pub lookup_port_forward-first :
      (before : List ActivePortForward) (r : ActivePortForward) (after : List ActivePortForward)
      → is_free before r.host_port ≡ true
      → lookup_port_forward v (before ++ (r ∷ after)) r.host_port
        ≡ some (r.container_id, r.container_port)
  unfolding lookup_port_forward is_free
  lookup_port_forward-first [] r after h = ground arith
  lookup_port_forward-first (b ∷ before) r after h =
      ground (arith, lookup_port_forward-first before r after)

  -- A port leads nowhere exactly when no rule is for it.
  pub lookup_port_forward-none :
      (rs : List ActivePortForward) (host_port : ℕ)
      → elim (lookup_port_forward v rs host_port) [ none ↦ true | some _ ↦ false ]
        ≡ is_free rs host_port
  unfolding lookup_port_forward is_free
  lookup_port_forward-none [] host_port = refl
  lookup_port_forward-none (r ∷ rs) host_port =
      ground (arith, lookup_port_forward-none rs host_port)
