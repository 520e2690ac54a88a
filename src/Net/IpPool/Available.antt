-- ===== src/Net/IpPool/Available.antt =====
-- `IpPool::available` of kernel/src/net/vswitch.rs, and reuse after `release`.
use oci_kernel.Prelude.{
  ℕ, ◌+◌, ◌-◌, ◌^◌, ◌≤◌, ◌<◌, ◌≡◌, ◌≢◌, ◌↔◌, refl, ap, sym, ◌∙◌, Bool-cases, Option-cases, inl, inr,
  true, false, arith, none, some, ltb, ltb→lt, lt→ltb, length, if◌then◌else◌,
}
use oci_kernel.Prelude.Order.{nat_key, ◌≟◌}
use oci_kernel.Prelude.BTreeSet
use oci_kernel.Prelude.BTreeSet.{contains, contains-insert, contains-remove}
use oci_kernel.Net.IpPool.{
  Ipv4Addr, IpPool, from_be_bytes, to_be_bytes, size, broadcast, allocate, release, available,
}
use oci_kernel.Net.IpPool.Address.{IsOctets, to_be_bytes-from_be_bytes}
use oci_kernel.Net.IpPool.Bounds.{
  contains_bounds, length-Within, length-insert, length-full, Within-insert,
}
use oci_kernel.Net.IpPool.Valid.{IsValid, first, release-IsValid}
use oci_kernel.Net.IpPool.Laws.{IsAllocated, IsFull, allocate-IsLeast, allocate-IsFull}

-- The addresses of the subnet, without network, gateway and broadcast address.
room-eq : (p : IpPool) → p.base + size p.mask < 2 ^ 32 → broadcast p - first p ≡ size p.mask - 3
unfolding broadcast
room-eq p h = omega arith

full-length : (p : IpPool) → IsValid p → IsFull p → broadcast p - first p ≤ length p.used
full-length p v full = elim (Bool-cases (ltb (first p) (broadcast p))) [
  | inl some_room ↦
      length-full (broadcast p - first p) (first p) (broadcast p) p.used (ground arith) v.within
        full
  | inr no_room ↦ ground arith
]

free-length :
    (p : IpPool) (x : ℕ)
    → IsValid p
    → first p ≤ x
    → x < broadcast p
    → contains x p.used ≡ false
    → length p.used < broadcast p - first p
free-length p x v l u free = omega (
  arith,
  length-insert (first p) (broadcast p) x p.used v.within free,
  length-Within (first p) (broadcast p) (BTreeSet.insert x p.used)
      (Within-insert (first p) (broadcast p) x p.used l u v.within),
)

available-of_some :
    (p : IpPool) (ip : Ipv4Addr)
    → IsValid p
    → p.base + size p.mask < 2 ^ 32
    → (allocate p).0 ≡ some ip
    → available p ≡ true
unfolding available
available-of_some p ip v h e =
    let a = allocate-IsLeast p ip (allocate p).1 v (λ i. (e i, (allocate p).1)) in
    lt→ltb _ _
      (omega (arith, room-eq p h, free-length p (from_be_bytes ip) v a.from a.below a.fresh))

-- `available` tells whether the next `allocate` returns an address.
pub available_iff :
    (p : IpPool)
    → IsValid p
    → p.base + size p.mask < 2 ^ 32
    → (available p ≡ true) ↔ ((allocate p).0 ≢ none)
unfolding available
available_iff p v h = (
  (λ e n.
      absurd
        (omega (arith, room-eq p h, ltb→lt _ _ e, full-length p v ((allocate-IsFull p v).0 n)))),
  (λ ne. elim (Option-cases (allocate p).0) [
    | inl n ↦ absurd (ne n)
    | inr (ip, e) ↦ available-of_some p ip v h e
  ]),
)

release-used :
    (p : IpPool) (ip : Ipv4Addr) (x : ℕ)
    → contains x (release p ip).used ≡ (if x ≟ from_be_bytes ip then false else contains x p.used)
unfolding release
release-used p ip x = contains-remove (from_be_bytes ip) x p.used

release-first : (p : IpPool) (ip : Ipv4Addr) → first (release p ip) ≡ first p
unfolding release
release-first p ip = refl

release-broadcast : (p : IpPool) (ip : Ipv4Addr) → broadcast (release p ip) ≡ broadcast p
unfolding release broadcast
release-broadcast p ip = refl

module _ (p : IpPool) (ip : Ipv4Addr) (v : IsValid p)
    (used : contains (from_be_bytes ip) p.used ≡ true) where
  released_bounds : (first p ≤ from_be_bytes ip) × (from_be_bytes ip < broadcast p)
  released_bounds = contains_bounds (first p) (broadcast p) (from_be_bytes ip) p.used v.within used

  not-IsFull : ¬ IsFull (release p ip)
  not-IsFull full =
      let (l, u) = released_bounds in
      let l' : first (release p ip) ≤ from_be_bytes ip = rw release-first l in
      let u' : from_be_bytes ip < broadcast (release p ip) = rw release-broadcast u in
      ground (arith, full (from_be_bytes ip) l' u', release-used p ip (from_be_bytes ip))

  -- The least free address after the release is the released one.
  reused :
      (ip' : Ipv4Addr) (q : IpPool)
      → from_be_bytes ip < p.next
      → IsAllocated (release p ip) ip' q
      → from_be_bytes ip' ≡ from_be_bytes ip
  reused ip' q low a =
      let (l, u) = released_bounds in
      let l' : first (release p ip) ≤ from_be_bytes ip = rw release-first l in
      let from : first p ≤ from_be_bytes ip' = rw release-first at a.from in
      ground (
        arith,
        a.least (from_be_bytes ip) l',
        a.fresh,
        v.passed (from_be_bytes ip') from,
        release-used p ip (from_be_bytes ip),
        release-used p ip (from_be_bytes ip'),
      )

  -- An address in use that is released below the cursor is the next one to be handed out.
  pub release-allocate :
      IsOctets ip → from_be_bytes ip < p.next → (allocate (release p ip)).0 ≡ some ip
  release-allocate o low = elim (Option-cases (allocate (release p ip)).0) [
    | inl n ↦ absurd (not-IsFull ((allocate-IsFull (release p ip) (release-IsValid p ip v)).0 n))
    | inr (ip', e) ↦
        let q = (allocate (release p ip)).1 in
        let a = allocate-IsLeast (release p ip) ip' q (release-IsValid p ip v) (λ i. (e i, q)) in
        let same = reused ip' q low a in
        e
        ∙ ap some (
            sym (to_be_bytes-from_be_bytes ip' a.octets)
            ∙ ap to_be_bytes same
            ∙ to_be_bytes-from_be_bytes ip o)
  ]
