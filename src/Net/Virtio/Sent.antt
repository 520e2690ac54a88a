-- ===== src/Net/Virtio/Sent.antt =====
-- What the device finds after a frame is sent by kernel/src/net/virtio_net.rs.
use mathlib.Core.Path.{subst}
use oci_kernel.Prelude.{
  ℕ, ◌+◌, ◌%◌, ◌<◌, ◌≤◌, ◌≡◌, refl, sym, ap, ◌∙◌, arith, Bool, ltb, Bool-cases, inl, inr,
  if◌then◌else◌, List, ◌++◌, length, length-append, length-set, get_or, take, drop, replicate,
  Outcome, returns, panics,
}
use oci_kernel.Prelude.Slices.{take-length-append, length-take, length-drop}
use oci_kernel.Net.Virtio.Ports.{Out}
use oci_kernel.Net.Virtio.{
  VirtioNet, VirtqDesc, queue_size, buf_size, hdr_len, pkt_size, add_u16, sub_u64, push_avail,
  notify, frame_buffer, tx_desc, send_frame, consume,
}
use oci_kernel.Net.Virtio.Probe.{no_desc}
use oci_kernel.Net.Virtio.Window.{get_or-set-same}

-- The buffer and the arrays of the transmit queue have their lengths.
pub record HasSizes (d : VirtioNet) : Type 0 where
  pub buf : length d.tx_buf ≡ buf_size
  pub descs : length d.tx_queue.desc ≡ queue_size
  pub ring : length d.tx_queue.avail_ring ≡ queue_size

-- The driver `d'` and the writes `outs'` after `frame` was sent from `d`.
pub record IsSent (d : VirtioNet) (outs : List Out) (frame : List ℕ) (d' : VirtioNet)
    (outs' : List Out) : Type 0 where
  pub sizes : HasSizes d'
  pub header_and_frame : take (hdr_len + length frame) d'.tx_buf ≡ replicate hdr_len 0 ++ frame
  pub desc_len : (get_or d'.tx_queue.desc 0 no_desc).len ≡ hdr_len + length frame
  pub desc_addr : (get_or d'.tx_queue.desc 0 no_desc).addr ≡ sub_u64 d.tx_buf_addr d.phys_offset
  pub desc_flags : (get_or d'.tx_queue.desc 0 no_desc).flags ≡ 0
  pub entry : get_or d'.tx_queue.avail_ring (d.tx_queue.avail_idx % queue_size) 1 ≡ 0
  pub counted : d'.tx_queue.avail_idx ≡ add_u16 d.tx_queue.avail_idx 1
  pub told : outs' ≡ notify d 1 outs

pub send_frame-IsSent :
    (d : VirtioNet) (frame : List ℕ) (outs : List Out)
    → HasSizes d
    → length frame ≤ pkt_size
    → IsSent d outs frame
        (send_frame d (length frame) frame outs).0
        (send_frame d (length frame) frame outs).1
unfolding send_frame push_avail tx_desc
send_frame-IsSent d frame outs h k =
    let desc = tx_desc d (length frame) in
    let p = d.tx_queue.avail_idx % queue_size in
    let rest = drop (hdr_len + length frame) d.tx_buf in
    let whole : hdr_len + length frame ≡ length (replicate hdr_len 0 ++ frame) = omega arith in
    let first = get_or-set-same no_desc d.tx_queue.desc 0 desc (omega (arith, h.descs)) in
    record {
      sizes = record {
        buf =
            omega (
              arith,
              length-append frame rest,
              length-drop (hdr_len + length frame) d.tx_buf,
              h.buf,
            );
        descs = length-set d.tx_queue.desc 0 desc ∙ h.descs;
        ring = length-set d.tx_queue.avail_ring p 0 ∙ h.ring;
      };
      header_and_frame =
          ap (λ n. take n (replicate hdr_len 0 ++ (frame ++ rest))) whole
          ∙ take-length-append (replicate hdr_len 0 ++ frame) rest;
      desc_len = ap (λ (e : VirtqDesc). e.len) first ∙ omega arith;
      desc_addr = ap (λ (e : VirtqDesc). e.addr) first;
      desc_flags = ap (λ (e : VirtqDesc). e.flags) first;
      entry = get_or-set-same 1 d.tx_queue.avail_ring p 0 (omega (arith, h.ring));
      counted = refl;
      told = refl;
    }

-- What `consume` gives: a panic, or the result of the closure with a sent frame.
pub IsConsumed :
    {R : Type 0}
    → VirtioNet
    → ℕ
    → (List ℕ → R × List ℕ)
    → List Out
    → Outcome (R × VirtioNet × List Out)
    → Type 0
IsConsumed d len f outs panics = pkt_size < len
IsConsumed d len f outs (returns (r, d', outs')) =
    (len ≤ pkt_size)
    × (r ≡ (f (frame_buffer d len)).0)
    × IsSent d outs (f (frame_buffer d len)).1 d' outs'

-- The closure's frame is as long as the caller asked for.
frame_buffer-length :
    (d : VirtioNet) (len : ℕ) → HasSizes d → len ≤ pkt_size → length (frame_buffer d len) ≡ len
unfolding frame_buffer
frame_buffer-length d len h k =
    ground (arith, length-take len (drop hdr_len d.tx_buf), length-drop hdr_len d.tx_buf, h.buf)

-- A frame that fits is sent.
send_frame_sized-IsSent :
    (d : VirtioNet) (len : ℕ) (frame : List ℕ) (outs : List Out)
    → HasSizes d
    → len ≤ pkt_size
    → length frame ≡ len
    → IsSent d outs frame (send_frame d len frame outs).0 (send_frame d len frame outs).1
send_frame_sized-IsSent d len frame outs h k e =
    subst (λ n. IsSent d outs frame (send_frame d n frame outs).0 (send_frame d n frame outs).1) e
      (send_frame-IsSent d frame outs h (omega (arith, e)))

-- `consume` panics on a frame that is longer than a packet, and otherwise leaves in the device's sight one descriptor with an empty header and the frame that the closure wrote, at the next place of the transmit ring, and tells the device; the closure writes its bytes in place.
pub consume-IsConsumed :
    {R : Type 0} (d : VirtioNet) (len : ℕ) (f : List ℕ → R × List ℕ) (outs : List Out)
    → HasSizes d
    → ((bytes : List ℕ) → length (f bytes).1 ≡ length bytes)
    → IsConsumed d len f outs (consume d len f outs)
unfolding IsConsumed consume
consume-IsConsumed {R} d len f outs h k =
    let sent = send_frame d len (f (frame_buffer d len)).1 outs in
    let result : Outcome (R × VirtioNet × List Out) =
      returns ((f (frame_buffer d len)).0, sent.0, sent.1) in
    let goal : Bool → Type 0 = λ b. IsConsumed d len f outs (if b then panics else result) in
    elim (Bool-cases (ltb buf_size (hdr_len + len))) [
      | inl e ↦ subst goal (sym e) (ground arith)
      | inr e ↦
          let fits : len ≤ pkt_size = ground arith in
          subst goal (sym e) (
            fits,
            refl,
            send_frame_sized-IsSent d len (f (frame_buffer d len)).1 outs h fits
                (k (frame_buffer d len) ∙ frame_buffer-length d len h fits),
          )
    ]
