-- ===== src/Boot/Holds.antt =====
-- Each container that kernel/src/main.rs starts adds its record and its port forwards.
use mathlib.Core.Path.{subst}
use mathlib.Core.List.{append-nil, append_assoc}
use oci_kernel.Prelude.{
  ℕ, ◌+◌, ◌^◌, ◌<◌, ◌≡◌, refl, sym, ap, ◌∙◌, arith, true, List, [], ◌∷◌, ◌++◌, length,
}
use oci_kernel.Prelude.Text.{text}
use oci_kernel.Prelude.Order.{nat_key}
use oci_kernel.Container.Spec.{ContainerSpec, PortMapping, ActivePortForward}
use oci_kernel.Container.Runtime
use oci_kernel.Container.Runtime.{Container, running}
use oci_kernel.Container.Store
use oci_kernel.Container.Store.{
  ContainerRecord, ContainerStore, all, running_count, count_running, is_running,
}
use oci_kernel.Host.Getty.State.{Getty, println}
use oci_kernel.Host.Getty.Containers.{forward_of}
use oci_kernel.Boot.{push_forward, push_forwards, registered, boot_container, boot_containers}
use oci_kernel.Boot.Declared.{
  declared, forwards_of, declared_forwards, is_below, values-insert_last, is_below-insert,
}

-- What the getty holds besides its screen, file system and directory.
pub record Holds (g : Getty) (records : List ContainerRecord) (forwards : List ActivePortForward)
    (id : ℕ) : Type 0 where
  pub stored : all g.store ≡ records
  pub forwarded : g.forwards ≡ forwards
  pub counted : g.next_id ≡ id
  pub below : is_below id g.store.entries ≡ true

push_forwards-forwards :
    (id : ℕ) (pms : List PortMapping) (g : Getty)
    → (push_forwards id pms g).forwards ≡ g.forwards ++ forwards_of id pms
unfolding push_forwards push_forward forward_of println forwards_of
push_forwards-forwards id [] g = sym (append-nil g.forwards)
push_forwards-forwards id (pm ∷ pms) g =
    push_forwards-forwards id pms (push_forward id pm g)
    ∙ append_assoc g.forwards (forward_of id pm ∷ []) (forwards_of id pms)

push_forwards-rest :
    (id : ℕ) (pms : List PortMapping) (g : Getty)
    → ((push_forwards id pms g).store ≡ g.store) × ((push_forwards id pms g).next_id ≡ g.next_id)
unfolding push_forwards push_forward println
push_forwards-rest id [] g = (refl, refl)
push_forwards-rest id (pm ∷ pms) g = push_forwards-rest id pms (push_forward id pm g)

registered-Holds :
    (c : Container) (spec : ContainerSpec) (g : Getty) (records : List ContainerRecord)
    (forwards : List ActivePortForward)
    → all g.store ≡ records
    → g.forwards ≡ forwards
    → g.next_id ≡ c.id + 1
    → is_below c.id g.store.entries ≡ true
    → Holds
        (registered c spec g)
        (records ++ (record { id = c.id; image = spec.image; state = running } ∷ []))
        (forwards ++ forwards_of c.id spec.ports)
        (c.id + 1)
unfolding registered println all Store.register
registered-Holds c spec g records forwards h k n b =
    let shown = println g (text "  [OK] " ++ (spec.image ++ text " running (PID ns isolated)")) in
    let entry : ContainerRecord = record { id = c.id; image = spec.image; state = running } in
    let stored = record shown { store = Store.register shown.store c.id spec.image running } in
    let (same_store, same_id) = push_forwards-rest c.id spec.ports stored in
    record {
      stored =
          ap all same_store
          ∙ values-insert_last c.id entry g.store.entries b
          ∙ ap (λ rs. rs ++ (entry ∷ [])) h;
      forwarded =
          push_forwards-forwards c.id spec.ports stored
          ∙ ap (λ fs. fs ++ forwards_of c.id spec.ports) k;
      counted = same_id ∙ n;
      below =
          ap (λ (st : ContainerStore). is_below (c.id + 1) st.entries) same_store
          ∙ is_below-insert c.id entry g.store.entries b;
    }

-- The started container, and the getty when it is registered.
started : ContainerSpec → Getty → Container
started spec g = (Runtime.start (Runtime.create spec g.next_id).0).1

counted : ContainerSpec → Getty → Getty
counted spec g = record (println g (text "  Starting container: " ++ (spec.image ++ text " ..."))) {
  next_id = (Runtime.create spec g.next_id).1;
}

boot_container_lem :
    (spec : ContainerSpec) (g : Getty)
    → boot_container spec g ≡ registered (started spec g) spec (counted spec g)
unfolding boot_container Runtime.start Runtime.create println started counted
boot_container_lem spec g = refl

-- A container takes the next number, runs, and has its ports forwarded.
boot_container-Holds :
    (spec : ContainerSpec) (g : Getty) (records : List ContainerRecord)
    (forwards : List ActivePortForward) (id : ℕ)
    → id + 1 < 2 ^ 64
    → Holds g records forwards id
    → Holds
        (boot_container spec g)
        (records ++ (record { id = id; image = spec.image; state = running } ∷ []))
        (forwards ++ forwards_of id spec.ports)
        (id + 1)
boot_container-Holds spec g records forwards id k h =
    let c_id : (started spec g).id ≡ id =
      unfold started in unfold Runtime.start in unfold Runtime.create in h.counted in
    let next : (counted spec g).next_id ≡ (started spec g).id + 1 =
      unfold started in
      unfold counted in
      unfold Runtime.start in
      unfold Runtime.create in unfold Runtime.next_id in omega (arith, h.counted) in
    let all_below : is_below (started spec g).id (counted spec g).store.entries ≡ true =
      ap (λ i. is_below i (counted spec g).store.entries) c_id
      ∙ unfold counted in unfold println in h.below in
    let same = boot_container_lem spec g in
    let booted =
      registered-Holds (started spec g) spec (counted spec g) records forwards
        (unfold counted in unfold println in h.stored)
        (unfold counted in unfold println in h.forwarded) next all_below in
    subst
      (λ i.
        Holds (boot_container spec g)
          (records ++ (record { id = i; image = spec.image; state = running } ∷ []))
          (forwards ++ forwards_of i spec.ports) (i + 1))
      c_id
      (subst
        (λ b.
          Holds b
            (records
              ++ (record { id = (started spec g).id; image = spec.image; state = running } ∷ []))
            (forwards ++ forwards_of (started spec g).id spec.ports) ((started spec g).id + 1))
        (sym same) booted)

pub boot_containers-Holds :
    (specs : List ContainerSpec) (g : Getty) (records : List ContainerRecord)
    (forwards : List ActivePortForward) (id : ℕ)
    → id + length specs < 2 ^ 64
    → Holds g records forwards id
    → Holds
        (boot_containers specs g)
        (records ++ declared id specs)
        (forwards ++ declared_forwards id specs)
        (id + length specs)
unfolding boot_containers declared declared_forwards
boot_containers-Holds [] g records forwards id k h = record {
  stored = h.stored ∙ sym (append-nil records);
  forwarded = h.forwarded ∙ sym (append-nil forwards);
  counted = omega (arith, h.counted);
  below = ground (arith, h.below);
}
boot_containers-Holds (spec ∷ specs) g records forwards id k h =
    let entry : ContainerRecord = record { id = id; image = spec.image; state = running } in
    let rest =
      boot_containers-Holds specs (boot_container spec g) (records ++ (entry ∷ []))
        (forwards ++ forwards_of id spec.ports) (id + 1) (omega arith)
        (boot_container-Holds spec g records forwards id (omega arith) h) in
    let sums : id + 1 + length specs ≡ id + length (spec ∷ specs) = omega arith in
    record {
      stored = rest.stored ∙ append_assoc records (entry ∷ []) (declared (id + 1) specs);
      forwarded =
          rest.forwarded
          ∙ append_assoc forwards (forwards_of id spec.ports) (declared_forwards (id + 1) specs);
      counted = rest.counted ∙ sums;
      below =
          ap (λ i. is_below i (boot_containers specs (boot_container spec g)).store.entries)
            (sym sums)
          ∙ rest.below;
    }
