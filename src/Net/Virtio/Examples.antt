-- ===== src/Net/Virtio/Examples.antt =====
-- The network driver of kernel/src/net/virtio_net.rs on a device that answers one buffer.
use oci_kernel.Prelude.{
  min, ℕ, ◌-◌, ◌≡◌, ◌≢◌, refl, arith, if◌then◌else◌, ◌==◌, none, some, List, [], ◌∷◌, ◌++◌, length,
  replicate, take, drop,
}
use oci_kernel.Net.Virtio.{pkt_size, hdr_len, packet_of, receive, consume}
use oci_kernel.Net.Virtio.Probe.{Memory, new_device, filled_rx_queue, alloc_virtqueue, indices}
use oci_kernel.Net.Virtio.Link.{
  Link, take_avail, put_used, device_takes, device_answers, Reaches, here, next,
}
use oci_kernel.Net.Virtio.Reachable.{Owned, new_link, Reaches-new_link-Owned, receive_lem}
use oci_kernel.Net.Virtio.Received.{next_used}
use oci_kernel.Net.Virtio.Answered.{receive-put_used}
use oci_kernel.Net.Virtio.Sent.{HasSizes, IsConsumed, consume-IsConsumed}

abbrev memory : Memory
memory = record { rx_queue = 0x10000; tx_queue = 0x20000; rx_bufs = 0x30000; tx_buf = 0x40000 }

abbrev mac : List ℕ
mac = 0x52 ∷ 0x54 ∷ 0 ∷ 0x12 ∷ 0x34 ∷ 0x56 ∷ []

unfoldable start : Link
start = new_link memory 0 0xC000 mac []

abbrev frame_bytes : List ℕ
frame_bytes = replicate hdr_len 0 ++ (1 ∷ 2 ∷ 3 ∷ replicate (pkt_size - 3) 0)

start_differs : start.taken ≢ start.driver.rx_queue.avail_idx
unfolding start new_link new_device filled_rx_queue
start_differs = λ e. omega arith

unfoldable taken : Link
taken = take_avail start

unfoldable answered_link : Link
answered_link = put_used taken [] 0 13 frame_bytes

answered_reached : Reaches start answered_link
unfolding answered_link taken take_avail start new_link new_device filled_rx_queue indices
answered_reached =
    next (next here (device_takes start_differs)) (device_answers [] 0 [] 13 frame_bytes refl refl)

Reaches-new_link-Owned_example : Owned answered_link
unfolding start
Reaches-new_link-Owned_example =
    Reaches-new_link-Owned memory 0 0xC000 mac [] answered_link answered_reached

taken-Owned : Owned taken
unfolding start taken
taken-Owned =
    Reaches-new_link-Owned memory 0 0xC000 mac [] taken (next here (device_takes start_differs))

answered_link-Owned : Owned answered_link
unfolding start
answered_link-Owned = Reaches-new_link-Owned memory 0 0xC000 mac [] answered_link answered_reached

receive_lem_example : (receive answered_link.driver answered_link.outs).0 ≡ (
    if answered_link.driver.rx_last_used == answered_link.driver.rx_queue.used_idx
    then none
    else some (packet_of answered_link.driver (next_used answered_link.driver)))
receive_lem_example = receive_lem answered_link answered_link-Owned

receive-put_used_example :
    (receive (put_used taken ([] ++ []) 0 13 frame_bytes).driver taken.outs).0
    ≡ some (take (min (13 - 10) 1514) (drop 10 frame_bytes))
unfolding taken take_avail start new_link new_device filled_rx_queue alloc_virtqueue indices
receive-put_used_example = receive-put_used taken [] 0 [] 13 frame_bytes taken-Owned refl refl

-- The device's length counts the header: three bytes arrive.
three_bytes : take (min (13 - 10) 1514) (drop 10 frame_bytes) ≡ 1 ∷ 2 ∷ 3 ∷ []
three_bytes = refl

sizes : HasSizes (start.driver)
unfolding start new_link new_device alloc_virtqueue
sizes = record { buf = refl; descs = refl; ring = refl }

sevens : List ℕ → List ℕ
sevens [] = []
sevens (b ∷ bytes) = 7 ∷ sevens bytes

length-sevens : (bytes : List ℕ) → length (sevens bytes) ≡ length bytes
unfolding sevens
length-sevens [] = refl
length-sevens (b ∷ bytes) = omega (arith, length-sevens bytes)

-- A closure that writes the byte 7 throughout.
write_sevens : List ℕ → ℕ × List ℕ
write_sevens bytes = (length bytes, sevens bytes)

consume-IsConsumed_example :
    IsConsumed start.driver 60 write_sevens [] (consume start.driver 60 write_sevens [])
unfolding write_sevens
consume-IsConsumed_example = consume-IsConsumed start.driver 60 write_sevens [] sizes length-sevens
