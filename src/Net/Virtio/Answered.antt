-- ===== src/Net/Virtio/Answered.antt =====
-- What a device answers is what `receive` of kernel/src/net/virtio_net.rs returns.
use oci_kernel.Prelude.{
  ◌-◌, min, ℕ, suc, ◌%◌, ◌^◌, ◌<◌, ◌≡◌, ◌≢◌, refl, sym, ap, ◌∙◌, arith, some, List, [], ◌∷◌, ◌++◌,
  length, get_or, set, take, drop,
}
use oci_kernel.Net.Virtio.{VirtqUsedElem, queue_size, no_elem, receive, packet_of, payload_len}
use oci_kernel.Net.Virtio.Window.{get_or-set-same}
use oci_kernel.Net.Virtio.Link.{Link, answered, put_used}
use oci_kernel.Net.Virtio.Owned.{
  occurrences, occurrences_cons, occurrences-append, IsOwned, occurrences-owned,
}
use oci_kernel.Net.Virtio.Taken.{put_used-IsOwned}
use oci_kernel.Net.Virtio.Received.{next_used}
use oci_kernel.Net.Virtio.Reachable.{Owned, receive_lem}

next_used-put_used :
    (l : Link) (others : List ℕ) (id len : ℕ) (bytes : List ℕ)
    → length l.driver.rx_queue.used_ring ≡ queue_size
    → l.driver.rx_last_used ≡ l.driver.rx_queue.used_idx
    → next_used (put_used l others id len bytes).driver ≡ record { id = id; len = len }
unfolding put_used answered
next_used-put_used l others id len bytes k h =
    let elem : VirtqUsedElem = record { id = id; len = len } in
    let p = l.driver.rx_queue.used_idx % queue_size in
    ap (λ i. get_or (set l.driver.rx_queue.used_ring p elem) (i % queue_size) no_elem) h
    ∙ get_or-set-same no_elem l.driver.rx_queue.used_ring p elem (omega (arith, k))

rx_buf-put_used :
    (l : Link) (others : List ℕ) (id len : ℕ) (bytes : List ℕ)
    → id < queue_size
    → length l.driver.rx_bufs ≡ queue_size
    → get_or (put_used l others id len bytes).driver.rx_bufs id [] ≡ bytes
unfolding put_used
rx_buf-put_used l others id len bytes h k =
    get_or-set-same [] l.driver.rx_bufs id bytes (omega (arith, k))

-- What the device holds are buffers.
held-lt :
    (l : Link) (n m : ℕ) (before : List ℕ) (id : ℕ) (others : List ℕ)
    → IsOwned l n m
    → l.held ≡ before ++ (id ∷ others)
    → id < queue_size
held-lt l n m before id others v e = ground (
  arith,
  occurrences-owned id l n m,
  ap (occurrences id) e,
  occurrences-append id before (id ∷ others),
  occurrences_cons id id others,
  v.once id,
)

-- The entry that is read is one that was not read before.
receive_unread :
    (l : Link)
    → Owned l
    → l.driver.rx_last_used ≢ l.driver.rx_queue.used_idx
    → (receive l.driver l.outs).0 ≡ some (packet_of l.driver (next_used l.driver))
receive_unread l o h = ground (arith, receive_lem l o)

put_used_unread :
    (l : Link) (others : List ℕ) (id len : ℕ) (bytes : List ℕ)
    → l.driver.rx_last_used ≡ l.driver.rx_queue.used_idx
    → l.driver.rx_last_used < 2 ^ 16
    → (put_used l others id len bytes).driver.rx_last_used
      ≢ (put_used l others id len bytes).driver.rx_queue.used_idx
unfolding put_used answered
put_used_unread l others id len bytes h k = λ e. omega arith

-- With no entry unread, what the device answers is what is received: the bytes after the ten of the header, as many as the length that the device gives leaves after the header, and at most 1514.
pub receive-put_used :
    (l : Link) (before : List ℕ) (id : ℕ) (others : List ℕ) (len : ℕ) (bytes : List ℕ)
    → Owned l
    → l.driver.rx_last_used ≡ l.driver.rx_queue.used_idx
    → l.held ≡ before ++ (id ∷ others)
    → (receive (put_used l (before ++ others) id len bytes).driver l.outs).0
      ≡ some (take (min (len - 10) 1514) (drop 10 bytes))
unfolding Owned
receive-put_used l before id others len bytes (n, m, v) h e =
    let l' = put_used l (before ++ others) id len bytes in
    let elem = next_used-put_used l (before ++ others) id len bytes v.used_length h in
    let fits = held-lt l n m before id others v e in
    let buf = rx_buf-put_used l (before ++ others) id len bytes fits v.bufs_length in
    let packet : packet_of l'.driver (next_used l'.driver)
        ≡ take (min (len - 10) 1514) (drop 10 bytes) =
      ap (packet_of l'.driver) elem
      ∙ unfold packet_of in
        unfold payload_len in ap (λ b. take (min (len - 10) 1514) (drop 10 b)) buf in
    let sound = put_used-IsOwned l n m before id others len bytes e v in
    let outs : l'.outs ≡ l.outs = unfold put_used in refl in
    ap (λ o. (receive l'.driver o).0) (sym outs)
    ∙ receive_unread l' (n, suc m, sound)
        (put_used_unread l (before ++ others) id len bytes h v.last_fits)
    ∙ ap some packet
