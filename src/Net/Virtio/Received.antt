-- ===== src/Net/Virtio/Received.antt =====
-- `receive` of kernel/src/net/virtio_net.rs gives a buffer back to the device.
use oci_kernel.Prelude.{
  ℕ, suc, ◌+◌, ◌%◌, ◌^◌, ◌<◌, ◌≡◌, ◌≢◌, refl, sym, ap, ◌∙◌, arith, [], ◌∷◌, push, length,
  length-set, get_or,
}
use oci_kernel.Net.Virtio.{
  VirtioNet, VirtqUsedElem, queue_size, add_u16, no_elem, receive, take_used, push_avail, notify,
}
use oci_kernel.Net.Virtio.Window.{window, window-add_u16, window-push}
use oci_kernel.Net.Virtio.Link.{Link, receive_step}
use oci_kernel.Net.Virtio.Owned.{
  occurrences, occurrences_cons, occurrences_nil, occurrences-append, ids, available, used, owned,
  IsOwned, occurrences-owned,
}

-- The entry that the driver reads next.
abbrev pub next_used : VirtioNet → VirtqUsedElem
next_used d = get_or d.rx_queue.used_ring (d.rx_last_used % queue_size) no_elem

-- What a receive makes of an entry in range: the buffer goes back to the available ring.
unfoldable pub received : Link → Link
received l = record l {
  driver = record l.driver {
    rx_last_used = add_u16 l.driver.rx_last_used 1;
    rx_queue = push_avail l.driver.rx_queue (next_used l.driver).id;
  };
  outs = notify l.driver 0 l.outs;
}

pub receive_step_nothing :
    (l : Link) → l.driver.rx_last_used ≡ l.driver.rx_queue.used_idx → receive_step l ≡ l
unfolding receive_step receive
receive_step_nothing l h = ground arith

pub receive_step-received :
    (l : Link)
    → l.driver.rx_last_used ≢ l.driver.rx_queue.used_idx
    → (next_used l.driver).id < queue_size
    → receive_step l ≡ received l
unfolding receive_step receive take_used received
receive_step-received l h k = ground arith

used-received : (l : Link) (m : ℕ) → used l (suc m) ≡ (next_used l.driver).id ∷ used (received l) m
unfolding used received ids window push_avail
used-received l m =
    ap (λ es. (next_used l.driver).id ∷ ids es)
      (sym (window-add_u16 no_elem l.driver.rx_queue.used_ring l.driver.rx_last_used m))

available-received :
    (l : Link) (n : ℕ)
    → length l.driver.rx_queue.avail_ring ≡ queue_size
    → n < queue_size
    → l.driver.rx_queue.avail_idx ≡ (l.taken + n) % 2 ^ 16
    → available (received l) (suc n) ≡ push (available l n) (next_used l.driver).id
unfolding available received push_avail
available-received l n h k e =
    window-push 0 l.driver.rx_queue.avail_ring l.taken n (l.driver.rx_queue.avail_idx % queue_size)
      (next_used l.driver).id h k (omega (arith, e))

owners-received :
    (i : ℕ) (l : Link) (n m : ℕ)
    → available (received l) (suc n) ≡ push (available l n) (next_used l.driver).id
    → occurrences i (owned (received l) (suc n) m) ≡ occurrences i (owned l n (suc m))
owners-received i l n m e =
    let id = (next_used l.driver).id in
    let held : occurrences i (received l).held ≡ occurrences i l.held = unfold received in refl in
    omega (
      arith,
      occurrences-owned i (received l) (suc n) m,
      occurrences-owned i l n (suc m),
      ap (occurrences i) e,
      occurrences-append i (available l n) (id ∷ []),
      ap (occurrences i) (used-received l m),
      occurrences_cons i id (used (received l) m),
      occurrences_cons i id [],
      occurrences_nil i,
      held,
    )

-- A used entry is that of a buffer.
pub next_used-lt : (l : Link) (n m : ℕ) → IsOwned l n (suc m) → (next_used l.driver).id < queue_size
next_used-lt l n m v =
    let id = (next_used l.driver).id in
    ground (
      arith,
      occurrences-owned id l n (suc m),
      ap (occurrences id) (used-received l m),
      occurrences_cons id id (used (received l) m),
      v.once id,
    )

pub received-IsOwned : (l : Link) (n m : ℕ) → IsOwned l n (suc m) → IsOwned (received l) (suc n) m
received-IsOwned l n m v =
    let room : n < queue_size = omega (arith, v.total) in
    let pushed = available-received l n v.avail_length room v.avail_fits in
    record {
      avail_fits = unfold received in unfold push_avail in omega (arith, v.avail_fits);
      used_fits = unfold received in unfold push_avail in omega (arith, v.used_fits);
      taken_fits = unfold received in v.taken_fits;
      last_fits = unfold received in omega arith;
      avail_length =
          unfold received in
          unfold push_avail in
          length-set l.driver.rx_queue.avail_ring (l.driver.rx_queue.avail_idx % queue_size)
            (next_used l.driver).id
          ∙ v.avail_length;
      used_length = unfold received in unfold push_avail in v.used_length;
      bufs_length = unfold received in v.bufs_length;
      total = unfold received in omega (arith, v.total);
      once = λ i. owners-received i l n m pushed ∙ v.once i;
    }
