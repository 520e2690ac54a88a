-- ===== src/Net/Virtio/Link.antt =====
-- The driver of kernel/src/net/virtio_net.rs and the device at the other end of its receive queue.
-- The device takes the available entries in order, and answers those it has taken in any order, with
-- what it wrote to the buffer and any length: this is what a virtio device does.
use oci_kernel.Prelude.{ℕ, ◌%◌, ◌≡◌, ◌≢◌, List, ◌∷◌, ◌++◌, get_or, set, length}
use oci_kernel.Net.Virtio.Ports.{Out}
use oci_kernel.Net.Virtio.{VirtioNet, Virtqueue, queue_size, buf_size, add_u16, receive}

-- `taken` is the device's index in the available ring, and `held` the buffers that it fills.
pub record Link : Type 0 where
  pub driver : VirtioNet
  pub outs : List Out
  pub taken : ℕ
  pub held : List ℕ

unfoldable pub take_avail : Link → Link
take_avail l = record l {
  taken = add_u16 l.taken 1;
  held = get_or l.driver.rx_queue.avail_ring (l.taken % queue_size) 0 ∷ l.held;
}

unfoldable pub answered : Virtqueue → ℕ → ℕ → Virtqueue
answered q id len = record q {
  used_ring = set q.used_ring (q.used_idx % queue_size) (record { id = id; len = len });
  used_idx = add_u16 q.used_idx 1;
}

-- The device answers the buffer `id` with `bytes` in it, and holds the others.
unfoldable pub put_used : Link → List ℕ → ℕ → ℕ → List ℕ → Link
unfolding answered
put_used l others id len bytes = record l {
  driver = record l.driver {
    rx_queue = answered l.driver.rx_queue id len;
    rx_bufs = set l.driver.rx_bufs id bytes;
  };
  held = others;
}

unfoldable pub receive_step : Link → Link
receive_step l =
    let (packet, driver, outs) = receive l.driver l.outs in
    record l { driver = driver; outs = outs }

pub data Step (l : Link) : Link → Type 0 where
  device_takes : l.taken ≢ l.driver.rx_queue.avail_idx → Step l (take_avail l)
  device_answers :
      (before : List ℕ) (id : ℕ) (others : List ℕ) (len : ℕ) (bytes : List ℕ)
      → l.held ≡ before ++ (id ∷ others)
      → length bytes ≡ buf_size
      → Step l (put_used l (before ++ others) id len bytes)
  driver_receives : Step l (receive_step l)

pub data Reaches (l : Link) : Link → Type 0 where
  here : Reaches l l
  next : {m n : Link} → Reaches l m → Step m n → Reaches l n
