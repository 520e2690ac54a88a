-- ===== src/Net/Virtio.antt =====
-- kernel/src/net/virtio_net.rs: the two rings of the network driver and the packets that pass
-- through them. A write to a port is an entry of a list, which every operation passes on. The
-- fences order these writes after those to memory, as the steps stand here.
pub mod Ports
pub mod Probe
pub mod Found
pub mod FoundExamples
pub mod Window
pub mod Link
pub mod Owned
pub mod Taken
pub mod Received
pub mod Reachable
pub mod Answered
pub mod Sent
pub mod Examples
use oci_kernel.Prelude.{
  ℕ, zero, suc, ◌+◌, ◌-◌, ◌%◌, ◌^◌, min, Bool, true, false, leb, ltb, ◌==◌, if◌then◌else◌, Option,
  none, some, List, [], ◌∷◌, ◌++◌, get_or, set, take, drop, replicate, Outcome, returns, panics,
}
use oci_kernel.Net.Virtio.Ports.{Out, out16}

abbrev pub queue_size : ℕ
queue_size = 16

abbrev pub queue_notify : ℕ
queue_notify = 16

-- The flag of a descriptor that the device writes to.
abbrev pub desc_f_write : ℕ
desc_f_write = 2

pub record VirtqDesc : Type 0 where
  pub addr : ℕ
  pub len : ℕ
  pub flags : ℕ
  pub next : ℕ

pub record VirtqUsedElem : Type 0 where
  pub id : ℕ
  pub len : ℕ

-- The arrays of a queue; the padding between them has no name here.
pub record Virtqueue : Type 0 where
  pub desc : List VirtqDesc
  pub avail_flags : ℕ
  pub avail_idx : ℕ
  pub avail_ring : List ℕ
  pub used_flags : ℕ
  pub used_idx : ℕ
  pub used_ring : List VirtqUsedElem

-- `size_of::<VirtioNetHdr>()`: two bytes and four words of 16 bits.
abbrev pub hdr_len : ℕ
hdr_len = 1 + 1 + 2 + 2 + 2 + 2

abbrev pub pkt_size : ℕ
pkt_size = 1514

abbrev pub buf_size : ℕ
buf_size = pkt_size + hdr_len

-- `tx_buf_addr` is the address of the array `tx_buf`, which stands in the struct.
pub record VirtioNet : Type 0 where
  pub mac : List ℕ
  pub io_base : ℕ
  pub phys_offset : ℕ
  pub rx_queue : Virtqueue
  pub rx_bufs : List (List ℕ)
  pub rx_last_used : ℕ
  pub tx_queue : Virtqueue
  pub tx_buf : List ℕ
  pub tx_buf_addr : ℕ

-- Sums of a `u16` and differences of a `u64` wrap; with overflow checks they panic where they do.
abbrev pub add_u16 : ℕ → ℕ → ℕ
add_u16 a b = (a + b) % 2 ^ 16

abbrev pub sub_u64 : ℕ → ℕ → ℕ
sub_u64 a b = (a + (2 ^ 64 - b)) % 2 ^ 64

unfoldable pub notify : VirtioNet → ℕ → List Out → List Out
notify d queue outs = out16 outs (add_u16 d.io_base queue_notify) queue

-- An entry at the end of the available ring, and the index after it.
unfoldable pub push_avail : Virtqueue → ℕ → Virtqueue
push_avail q id = record q {
  avail_ring = set q.avail_ring (q.avail_idx % queue_size) id;
  avail_idx = add_u16 q.avail_idx 1;
}

abbrev pub no_elem : VirtqUsedElem
no_elem = record { id = 0; len = 0 }

unfoldable pub payload_len : ℕ → ℕ
payload_len pkt_len = min (pkt_len - hdr_len) pkt_size

unfoldable pub packet_of : VirtioNet → VirtqUsedElem → List ℕ
unfolding payload_len
packet_of d elem = take (payload_len elem.len) (drop hdr_len (get_or d.rx_bufs elem.id []))

-- `receive`, after the test that there is an entry: the token of the packet, and the driver.
unfoldable pub take_used :
    VirtioNet → VirtqUsedElem → List Out → Option (List ℕ) × VirtioNet × List Out
unfolding packet_of push_avail notify
take_used d elem outs =
    let advanced = record d { rx_last_used = add_u16 d.rx_last_used 1 } in
    if leb queue_size elem.id then (none, advanced, outs) else (
      some (packet_of d elem),
      record advanced { rx_queue = push_avail d.rx_queue elem.id },
      notify d 0 outs,
    )

unfoldable pub receive : VirtioNet → List Out → Option (List ℕ) × VirtioNet × List Out
unfolding take_used
receive d outs =
    if d.rx_last_used == d.rx_queue.used_idx
    then (none, d, outs)
    else take_used d (get_or d.rx_queue.used_ring (d.rx_last_used % queue_size) no_elem) outs

-- The part of `tx_buf` that the frame is written to.
unfoldable pub frame_buffer : VirtioNet → ℕ → List ℕ
frame_buffer d len = take len (drop hdr_len d.tx_buf)

unfoldable pub tx_desc : VirtioNet → ℕ → VirtqDesc
tx_desc d len = record {
  addr = sub_u64 d.tx_buf_addr d.phys_offset;
  len = (hdr_len + len) % 2 ^ 32;
  flags = 0;
  next = 0;
}

-- The frame is in the buffer: descriptor 0 is set and made available.
unfoldable pub send_frame : VirtioNet → ℕ → List ℕ → List Out → VirtioNet × List Out
unfolding tx_desc push_avail notify
send_frame d len frame outs =
    let filled = record d {
      tx_buf = replicate hdr_len 0 ++ (frame ++ drop (hdr_len + len) d.tx_buf);
    } in
    let queue = record d.tx_queue { desc = set d.tx_queue.desc 0 (tx_desc d len) } in
    (record filled { tx_queue = push_avail queue 0 }, notify d 1 outs)

-- `TxToken::consume`: `f` writes the frame in place. A frame that does not fit is an index out of range.
unfoldable pub consume {ℓ} :
    {R : Type ℓ}
    → VirtioNet
    → ℕ
    → (List ℕ → R × List ℕ)
    → List Out
    → Outcome (R × VirtioNet × List Out)
unfolding frame_buffer send_frame
consume d len f outs =
    if ltb buf_size (hdr_len + len)
    then panics
    else let (result, frame) = f (frame_buffer d len) in
      let (sent, outs') = send_frame d len frame outs in returns (result, sent, outs')
