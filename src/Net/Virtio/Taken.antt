-- ===== src/Net/Virtio/Taken.antt =====
-- The device takes and answers the receive buffers of kernel/src/net/virtio_net.rs.
use oci_kernel.Prelude.{
  ℕ, suc, ◌+◌, ◌%◌, ◌^◌, ◌<◌, ◌≡◌, ◌≢◌, refl, sym, ap, ◌∙◌, arith, List, [], ◌∷◌, ◌++◌, push,
  length, length-append, length-set, get_or,
}
use oci_kernel.Net.Virtio.{VirtqUsedElem, queue_size, no_elem}
use oci_kernel.Net.Virtio.Window.{window, window-add_u16, window-push}
use oci_kernel.Net.Virtio.Link.{Link, take_avail, answered, put_used}
use oci_kernel.Net.Virtio.Owned.{
  occurrences, occurrences_cons, occurrences_nil, occurrences-append, ids, ids-push, available,
  used, owned, IsOwned, occurrences-owned,
}

available-take_avail :
    (l : Link) (n : ℕ)
    → available l (suc n)
      ≡ get_or l.driver.rx_queue.avail_ring (l.taken % queue_size) 0 ∷ available (take_avail l) n
unfolding available take_avail window
available-take_avail l n =
    ap (λ xs. get_or l.driver.rx_queue.avail_ring (l.taken % queue_size) 0 ∷ xs)
      (sym (window-add_u16 0 l.driver.rx_queue.avail_ring l.taken n))

owners-take_avail :
    (i : ℕ) (l : Link) (n m : ℕ)
    → occurrences i (owned (take_avail l) n m) ≡ occurrences i (owned l (suc n) m)
owners-take_avail i l n m =
    let x = get_or l.driver.rx_queue.avail_ring (l.taken % queue_size) 0 in
    let held : occurrences i (take_avail l).held ≡ occurrences i (x ∷ l.held) =
      unfold take_avail in refl in
    let same : occurrences i (used (take_avail l) m) ≡ occurrences i (used l m) =
      unfold used in unfold take_avail in refl in
    omega (
      arith,
      occurrences-owned i (take_avail l) n m,
      occurrences-owned i l (suc n) m,
      ap (occurrences i) (available-take_avail l n),
      occurrences_cons i x (available (take_avail l) n),
      occurrences_cons i x l.held,
      held,
      same,
    )

pub take_avail-IsOwned :
    (l : Link) (n m : ℕ)
    → l.taken ≢ l.driver.rx_queue.avail_idx
    → IsOwned l (suc n) m
    → IsOwned (take_avail l) n m
take_avail-IsOwned l n m h v = record {
  avail_fits = unfold take_avail in omega (arith, v.avail_fits);
  used_fits = unfold take_avail in v.used_fits;
  taken_fits = unfold take_avail in omega arith;
  last_fits = unfold take_avail in v.last_fits;
  avail_length = unfold take_avail in v.avail_length;
  used_length = unfold take_avail in v.used_length;
  bufs_length = unfold take_avail in v.bufs_length;
  total = unfold take_avail in omega (arith, v.total);
  once = λ i. owners-take_avail i l n m ∙ v.once i;
}

-- Where the indices differ there is an entry.
pub take_avail-zero : (l : Link) (m : ℕ) → l.taken ≢ l.driver.rx_queue.avail_idx → IsOwned l 0 m → ⊥
take_avail-zero l m h v = h (omega (arith, v.avail_fits, v.taken_fits))

used-put_used :
    (l : Link) (m : ℕ) (others : List ℕ) (id len : ℕ) (bytes : List ℕ)
    → length l.driver.rx_queue.used_ring ≡ queue_size
    → m < queue_size
    → l.driver.rx_queue.used_idx ≡ (l.driver.rx_last_used + m) % 2 ^ 16
    → used (put_used l others id len bytes) (suc m) ≡ push (used l m) id
unfolding used put_used answered
used-put_used l m others id len bytes h k e =
    let elem : VirtqUsedElem = record { id = id; len = len } in
    ap ids (
      window-push no_elem l.driver.rx_queue.used_ring l.driver.rx_last_used m
        (l.driver.rx_queue.used_idx % queue_size) elem h k (omega (arith, e)))
    ∙ ids-push (window no_elem l.driver.rx_queue.used_ring l.driver.rx_last_used m) elem

owners-put_used :
    (i : ℕ) (l : Link) (n m : ℕ) (before : List ℕ) (id : ℕ) (others : List ℕ) (len : ℕ)
    (bytes : List ℕ)
    → l.held ≡ before ++ (id ∷ others)
    → used (put_used l (before ++ others) id len bytes) (suc m) ≡ push (used l m) id
    → occurrences i (owned (put_used l (before ++ others) id len bytes) n (suc m))
      ≡ occurrences i (owned l n m)
owners-put_used i l n m before id others len bytes h e =
    let l' = put_used l (before ++ others) id len bytes in
    let same : occurrences i (available l' n) ≡ occurrences i (available l n) =
      unfold available in unfold put_used in unfold answered in refl in
    let held : occurrences i l'.held ≡ occurrences i (before ++ others) = unfold put_used in refl in
    omega (
      arith,
      occurrences-owned i l' n (suc m),
      occurrences-owned i l n m,
      ap (occurrences i) e,
      occurrences-append i (used l m) (id ∷ []),
      ap (occurrences i) h,
      occurrences-append i before (id ∷ others),
      occurrences-append i before others,
      occurrences_cons i id others,
      occurrences_cons i id [],
      occurrences_nil i,
      held,
      same,
    )

pub put_used-IsOwned :
    (l : Link) (n m : ℕ) (before : List ℕ) (id : ℕ) (others : List ℕ) (len : ℕ) (bytes : List ℕ)
    → l.held ≡ before ++ (id ∷ others)
    → IsOwned l n m
    → IsOwned (put_used l (before ++ others) id len bytes) n (suc m)
put_used-IsOwned l n m before id others len bytes h v =
    let some_held : length l.held ≡ length before + suc (length others) =
      ap length h ∙ length-append before (id ∷ others) in
    let used_pushed =
      used-put_used l m (before ++ others) id len bytes v.used_length
        (omega (arith, v.total, some_held)) v.used_fits in
    record {
      avail_fits = unfold put_used in unfold answered in v.avail_fits;
      used_fits = unfold put_used in unfold answered in omega (arith, v.used_fits);
      taken_fits = unfold put_used in v.taken_fits;
      last_fits = unfold put_used in v.last_fits;
      avail_length = unfold put_used in unfold answered in v.avail_length;
      used_length =
          unfold put_used in
          unfold answered in
          length-set l.driver.rx_queue.used_ring (l.driver.rx_queue.used_idx % queue_size)
            (record { id = id; len = len })
          ∙ v.used_length;
      bufs_length = unfold put_used in length-set l.driver.rx_bufs id bytes ∙ v.bufs_length;
      total = unfold put_used in omega (arith, v.total, some_held, length-append before others);
      once = λ i. owners-put_used i l n m before id others len bytes h used_pushed ∙ v.once i;
    }
