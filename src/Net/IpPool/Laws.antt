-- ===== src/Net/IpPool/Laws.antt =====
-- `IpPool::allocate` and `release` of kernel/src/net/vswitch.rs: the least free address.
use oci_kernel.Prelude.{
  ℕ, zero, suc, ◌-◌, ◌≤◌, ◌<◌, ◌≡◌, ◌↔◌, refl, ap, sym, ◌∙◌, Bool-cases, inl, inr, true, false,
  arith, none, some, if◌then◌else◌,
}
use oci_kernel.Prelude.Order.{nat_key, ◌≟◌}
use oci_kernel.Prelude.BTreeSet.{contains, contains-insert}
use oci_kernel.Net.IpPool.{
  Ipv4Addr, IpPool, from_be_bytes, to_be_bytes, broadcast, allocate_from, allocate,
}
use oci_kernel.Net.IpPool.Address.{IsOctets, to_be_bytes-IsOctets, from_be_bytes-to_be_bytes}
use oci_kernel.Net.IpPool.Valid.{
  IsValid, first, broadcast-lt, advance, advance-IsValid, take, take-IsValid,
}

module _ (left : ℕ) (p : IpPool) where
  allocate_from-used :
      contains p.next p.used ≡ true → allocate_from (suc left) p ≡ allocate_from left (advance p)
  unfolding allocate_from advance
  allocate_from-used h = rw h

  allocate_from-free :
      contains p.next p.used ≡ false
      → allocate_from (suc left) p ≡ (some (to_be_bytes p.next), take p)
  unfolding allocate_from take
  allocate_from-free h = rw h

-- What a successful call returns and leaves.
pub record IsAllocated (p : IpPool) (ip : Ipv4Addr) (p' : IpPool) : Type 0 where
  pub valid : IsValid p'
  pub octets : IsOctets ip
  pub from : first p ≤ from_be_bytes ip
  pub below : from_be_bytes ip < broadcast p
  pub fresh : contains (from_be_bytes ip) p.used ≡ false
  pub least : (x : ℕ) → first p ≤ x → x < from_be_bytes ip → contains x p.used ≡ true
  pub taken :
      (x : ℕ) → contains x p'.used ≡ (if x ≟ from_be_bytes ip then true else contains x p.used)
  pub subnet : (p'.base ≡ p.base) × (p'.mask ≡ p.mask)

take-IsAllocated :
    (p : IpPool)
    → IsValid p
    → p.next < broadcast p
    → contains p.next p.used ≡ false
    → IsAllocated p (to_be_bytes p.next) (take p)
unfolding take
take-IsAllocated p v room free =
    let n : from_be_bytes (to_be_bytes p.next) ≡ p.next =
      from_be_bytes-to_be_bytes p.next (omega (arith, broadcast-lt p)) in
    record {
      valid = take-IsValid p v room;
      octets = to_be_bytes-IsOctets p.next;
      from = rw n v.started;
      below = rw n room;
      fresh = rw n free;
      least = λ x l u. v.passed x l (rw n at u);
      taken = λ x. rw n (contains-insert p.next x p.used);
      subnet = (refl, refl);
    }

advance-IsAllocated :
    (p : IpPool) (ip : Ipv4Addr) (p' : IpPool) → IsAllocated (advance p) ip p' → IsAllocated p ip p'
unfolding advance broadcast
advance-IsAllocated p ip p' a = record {
  valid = a.valid;
  octets = a.octets;
  from = a.from;
  below = a.below;
  fresh = a.fresh;
  least = a.least;
  taken = a.taken;
  subnet = a.subnet;
}

allocate_from-IsAllocated :
    (left : ℕ) (p : IpPool) (ip : Ipv4Addr) (p' : IpPool)
    → IsValid p
    → left ≤ broadcast p - p.next
    → allocate_from left p ≡ (some ip, p')
    → IsAllocated p ip p'
allocate_from-IsAllocated zero p ip p' v h e = unfold allocate_from in absurd (cc (ap (λ t. t.0) e))
allocate_from-IsAllocated (suc left) p ip p' v h e = elim (Bool-cases (contains p.next p.used)) [
  | inl used ↦ advance-IsAllocated p ip p' (
      allocate_from-IsAllocated left (advance p) ip p' (advance-IsValid p v used)
        (unfold advance broadcast in omega arith) (sym (allocate_from-used left p used) ∙ e))
  | inr free ↦
      let got = sym (allocate_from-free left p free) ∙ e in
      let same : to_be_bytes p.next ≡ ip = cc (ap (λ t. t.0) got) in
      rw (← same, ← ap (λ t. t.1) got) (take-IsAllocated p v (omega arith) free)
]

-- From a valid pool, an address that `allocate` returns is the least free one of the subnet; the
-- call marks it used, changes no other address, and keeps the pool valid.
pub allocate-IsLeast :
    (p : IpPool) (ip : Ipv4Addr) (p' : IpPool)
    → IsValid p
    → allocate p ≡ (some ip, p')
    → IsAllocated p ip p'
unfolding allocate
allocate-IsLeast p ip p' v e =
    allocate_from-IsAllocated (broadcast p - p.next) p ip p' v (omega arith) e

-- No address from the first one up to the broadcast address is free.
abbrev pub IsFull : IpPool → Type 0
IsFull p = (x : ℕ) → first p ≤ x → x < broadcast p → contains x p.used ≡ true

allocate_from-IsFull :
    (left : ℕ) (p : IpPool)
    → IsValid p
    → left ≡ broadcast p - p.next
    → (allocate_from left p).0 ≡ none
    → IsFull p
unfolding advance broadcast
allocate_from-IsFull zero p v h e = λ x l u. v.passed x l (omega arith)
allocate_from-IsFull (suc left) p v h e = elim (Bool-cases (contains p.next p.used)) [
  | inl used ↦
      allocate_from-IsFull left (advance p) (advance-IsValid p v used)
        (unfold advance broadcast in omega arith)
        (sym (ap (λ t. t.0) (allocate_from-used left p used)) ∙ e)
  | inr free ↦ absurd (cc (ap (λ t. t.0) (allocate_from-free left p free), e))
]

full-allocate_from :
    (left : ℕ) (p : IpPool)
    → IsValid p
    → left ≤ broadcast p - p.next
    → IsFull p
    → (allocate_from left p).0 ≡ none
full-allocate_from zero p v h full = unfold allocate_from in refl
full-allocate_from (suc left) p v h full =
    let used = full p.next v.started (omega arith) in
    ap (λ t. t.0) (allocate_from-used left p used)
    ∙ full-allocate_from left (advance p) (advance-IsValid p v used)
        (unfold advance broadcast in omega arith) (unfold advance broadcast in full)

-- `allocate` gives up exactly when no address of the subnet is free.
pub allocate-IsFull : (p : IpPool) → IsValid p → ((allocate p).0 ≡ none) ↔ IsFull p
unfolding allocate
allocate-IsFull p v = (
  allocate_from-IsFull (broadcast p - p.next) p v refl,
  full-allocate_from (broadcast p - p.next) p v (omega arith),
)
