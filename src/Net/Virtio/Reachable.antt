-- ===== src/Net/Virtio/Reachable.antt =====
-- Every receive buffer of kernel/src/net/virtio_net.rs keeps one owner.
use mathlib.Core.Path.{subst}
use oci_kernel.Prelude.{
  ℕ, zero, suc, ◌+◌, ◌≡◌, ◌≢◌, refl, sym, ap, ◌∙◌, arith, ◌&&◌, leb, ltb, ◌==◌, if◌then◌else◌, none,
  some, List, [],
}
use oci_kernel.Net.Virtio.Ports.{Out}
use oci_kernel.Net.Virtio.{receive, take_used, packet_of}
use oci_kernel.Net.Virtio.Window.{window}
use oci_kernel.Net.Virtio.Probe.{Memory, new_device, filled_rx_queue, alloc_virtqueue, indices}
use oci_kernel.Net.Virtio.Link.{
  Link, take_avail, receive_step, Step, device_takes, device_answers, driver_receives, Reaches,
  here, next,
}
use oci_kernel.Net.Virtio.Owned.{occurrences, ids, available, used, owned, IsOwned}
use oci_kernel.Net.Virtio.Taken.{take_avail-IsOwned, take_avail-zero, put_used-IsOwned}
use oci_kernel.Net.Virtio.Received.{
  next_used, receive_step_nothing, receive_step-received, next_used-lt, received-IsOwned,
}

-- The indices are those of some numbers of entries.
unfoldable pub Owned : Link → Type 0
Owned l = (n : ℕ) × (m : ℕ) × IsOwned l n m

receive_any :
    (l : Link) (n m : ℕ)
    → IsOwned l n m
    → (receive l.driver l.outs).0 ≡ (
        if l.driver.rx_last_used == l.driver.rx_queue.used_idx
        then none
        else some (packet_of l.driver (next_used l.driver)))
unfolding receive take_used
receive_any l n zero v =
    let nothing : l.driver.rx_last_used ≡ l.driver.rx_queue.used_idx =
      omega (arith, v.used_fits, v.last_fits) in
    ground arith
receive_any l n (suc m) v = let fits = next_used-lt l n m v in ground arith

receive_step-Owned : (l : Link) (n m : ℕ) → IsOwned l n m → Owned (receive_step l)
unfolding Owned
receive_step-Owned l n zero v =
    subst (λ k. (n : ℕ) × (m : ℕ) × IsOwned k n m)
      (sym (receive_step_nothing l (omega (arith, v.used_fits, v.last_fits)))) (n, 0, v)
receive_step-Owned l n (suc m) v =
    let some_used : l.driver.rx_last_used ≢ l.driver.rx_queue.used_idx =
      λ e. omega (arith, v.used_fits, v.last_fits, v.total) in
    subst (λ k. (n : ℕ) × (m : ℕ) × IsOwned k n m)
      (sym (receive_step-received l some_used (next_used-lt l n m v)))
      (suc n, m, received-IsOwned l n m v)

take_avail-Owned :
    (l : Link) (n m : ℕ)
    → l.taken ≢ l.driver.rx_queue.avail_idx
    → IsOwned l n m
    → Owned (take_avail l)
unfolding Owned
take_avail-Owned l zero m h v = absurd (take_avail-zero l m h v)
take_avail-Owned l (suc n) m h v = (n, m, take_avail-IsOwned l n m h v)

Step-Owned : {l k : Link} → Step l k → Owned l → Owned k
unfolding Owned
Step-Owned {l} (device_takes h) (n, m, v) = take_avail-Owned l n m h v
Step-Owned {l} (device_answers before id others len bytes h fits) (n, m, v) =
    (n, suc m, put_used-IsOwned l n m before id others len bytes h v)
Step-Owned {l} driver_receives (n, m, v) = receive_step-Owned l n m v

Reaches-Owned : {l k : Link} → Owned l → Reaches l k → Owned k
Reaches-Owned o here = o
Reaches-Owned o (next r s) = Step-Owned s (Reaches-Owned o r)

-- The driver as `init` returns it, and a device that has taken nothing.
unfoldable pub new_link : Memory → ℕ → ℕ → List ℕ → List Out → Link
unfolding new_device
new_link memory phys_offset io_base mac outs = record {
  driver = new_device memory phys_offset io_base mac;
  outs = outs;
  taken = 0;
  held = [];
}

occurrences-indices :
    (i left from : ℕ)
    → occurrences i (indices left from) ≡ (if leb from i && ltb i (from + left) then 1 else 0)
unfolding occurrences indices
occurrences-indices i zero from = ground arith
occurrences-indices i (suc left) from = ground (arith, occurrences-indices i left (from + 1))

module _ (memory : Memory) (phys_offset io_base : ℕ) (mac : List ℕ) (outs : List Out) where
  owned-new_link : owned (new_link memory phys_offset io_base mac outs) 16 0 ≡ indices 16 0
  unfolding new_link new_device filled_rx_queue owned available used window ids indices
  owned-new_link = refl

  new_link-IsOwned : IsOwned (new_link memory phys_offset io_base mac outs) 16 0
  unfolding new_link new_device filled_rx_queue alloc_virtqueue indices
  new_link-IsOwned = record {
    avail_fits = refl;
    used_fits = refl;
    taken_fits = omega arith;
    last_fits = omega arith;
    avail_length = refl;
    used_length = refl;
    bufs_length = refl;
    total = refl;
    once = λ i. ap (occurrences i) owned-new_link ∙ ground (arith, occurrences-indices i 16 0);
  }

  -- Wherever the driver and the device come to from the start, the indices enclose the entries of the two rings and every receive buffer has exactly one owner: the available ring, the device, or the used ring.
  pub Reaches-new_link-Owned :
      (l : Link) → Reaches (new_link memory phys_offset io_base mac outs) l → Owned l
  unfolding Owned
  Reaches-new_link-Owned l r = Reaches-Owned (16, 0, new_link-IsOwned) r

-- In a link whose buffers have one owner each, `receive` refuses no entry: where the device has answered, the packet of the answered buffer is returned, and otherwise nothing is.
pub receive_lem :
    (l : Link)
    → Owned l
    → (receive l.driver l.outs).0 ≡ (
        if l.driver.rx_last_used == l.driver.rx_queue.used_idx
        then none
        else some (packet_of l.driver (next_used l.driver)))
unfolding Owned
receive_lem l (n, m, v) = receive_any l n m v
