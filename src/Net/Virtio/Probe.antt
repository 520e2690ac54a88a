-- ===== src/Net/Virtio/Probe.antt =====
-- Finding the device and setting it up, in kernel/src/net/virtio_net.rs. The memory that the queues
-- and the receive buffers are given is a parameter: `Memory` has their addresses.
use oci_kernel.Prelude.{
  ℕ, zero, suc, ◌+◌, ◌-◌, ◌*◌, ◌/◌, ◌%◌, ◌^◌, bit_and, bit_xor, Bool, ltb, ◌==◌, ◌&&◌,
  if◌then◌else◌, Option, none, some, List, [], ◌∷◌, replicate,
}
use oci_kernel.Net.Virtio.Ports.{Out, Bus, out8, out16, out32, pci_read32, pci_write32}
use oci_kernel.Net.Virtio.{
  VirtioNet, Virtqueue, VirtqDesc, queue_size, desc_f_write, buf_size, add_u16, sub_u64, no_elem,
}

pub record Memory : Type 0 where
  pub rx_queue : ℕ
  pub tx_queue : ℕ
  pub rx_bufs : ℕ
  pub tx_buf : ℕ

-- The registers of the device.
abbrev pub host_features : ℕ
host_features = 0

abbrev pub guest_features : ℕ
guest_features = 4

abbrev pub queue_addr : ℕ
queue_addr = 8

abbrev pub queue_select : ℕ
queue_select = 14

abbrev pub status : ℕ
status = 18

abbrev pub config_mac : ℕ
config_mac = 20

abbrev pub acknowledge : ℕ
acknowledge = 1

abbrev pub driver : ℕ
driver = 2

abbrev pub driver_ok : ℕ
driver_ok = 4

abbrev pub features_ok : ℕ
features_ok = 8

-- `1 << 5`
abbrev pub f_mac : ℕ
f_mac = 32

abbrev pub bit_or : ℕ → ℕ → ℕ
bit_or a b = bit_xor (bit_xor a b) (bit_and a b)

abbrev pub no_desc : VirtqDesc
no_desc = record { addr = 0; len = 0; flags = 0; next = 0 }

-- `alloc_virtqueue`: zeroed memory.
unfoldable pub alloc_virtqueue : Virtqueue
alloc_virtqueue = record {
  desc = replicate queue_size no_desc;
  avail_flags = 0;
  avail_idx = 0;
  avail_ring = replicate queue_size 0;
  used_flags = 0;
  used_idx = 0;
  used_ring = replicate queue_size no_elem;
}

-- The descriptor of the receive buffer `i`: the buffers stand one after another.
unfoldable pub rx_desc : Memory → ℕ → ℕ → VirtqDesc
rx_desc m phys_offset i = record {
  addr = sub_u64 (m.rx_bufs + i * buf_size) phys_offset;
  len = buf_size;
  flags = desc_f_write;
  next = 0;
}

-- The loop that fills the descriptors and the available ring, from the index `i` on.
unfoldable pub rx_descs : Memory → ℕ → ℕ → ℕ → List VirtqDesc
unfolding rx_desc
rx_descs m phys_offset zero i = []
rx_descs m phys_offset (suc left) i = rx_desc m phys_offset i ∷ rx_descs m phys_offset left (i + 1)

unfoldable pub indices : ℕ → ℕ → List ℕ
indices zero i = []
indices (suc left) i = i ∷ indices left (i + 1)

unfoldable pub filled_rx_queue : Memory → ℕ → Virtqueue
unfolding alloc_virtqueue rx_descs indices
filled_rx_queue m phys_offset = record alloc_virtqueue {
  desc = rx_descs m phys_offset queue_size 0;
  avail_ring = indices queue_size 0;
  avail_idx = queue_size;
}

-- The driver that `init` returns.
unfoldable pub new_device : Memory → ℕ → ℕ → List ℕ → VirtioNet
unfolding filled_rx_queue alloc_virtqueue
new_device m phys_offset io_base mac = record {
  mac = mac;
  io_base = io_base;
  phys_offset = phys_offset;
  rx_queue = filled_rx_queue m phys_offset;
  rx_bufs = replicate queue_size (replicate buf_size 0);
  rx_last_used = 0;
  tx_queue = alloc_virtqueue;
  tx_buf = replicate buf_size 0;
  tx_buf_addr = m.tx_buf;
}

-- The queue's page number, cut to 32 bits.
unfoldable pub setup_queue : ℕ → ℕ → ℕ → List Out → List Out
unfolding out16 out32
setup_queue io_base queue_idx phys_addr outs =
    out32 (out16 outs (add_u16 io_base queue_select) queue_idx) (add_u16 io_base queue_addr)
      (phys_addr / 4096 % 2 ^ 32)

module _ (hw : Bus) (m : Memory) where
  -- `for i in 0..6`
  unfoldable pub read_mac : ℕ → ℕ → ℕ → List Out → List ℕ
  read_mac zero io_base i outs = []
  read_mac (suc left) io_base i outs =
      hw.in8 outs (add_u16 (add_u16 io_base config_mac) i) ∷ read_mac left io_base (i + 1) outs

  unfoldable pub negotiate : ℕ → List Out → List Out
  unfolding out8 out32
  negotiate io_base outs =
      out8
        (out32 outs (add_u16 io_base guest_features)
          (bit_and (hw.in32 outs (add_u16 io_base host_features)) f_mac))
        (add_u16 io_base status) (acknowledge + driver + features_ok)

  -- `init` after the test of the base address.
  unfoldable pub set_up : ℕ → ℕ → List Out → VirtioNet × List Out
  unfolding out8 read_mac negotiate setup_queue new_device
  set_up phys_offset io_base outs =
      let reset = out8 outs (add_u16 io_base status) 0 in
      let known = out8 reset (add_u16 io_base status) (acknowledge + driver) in
      let rx_set =
        setup_queue io_base 0 (sub_u64 m.rx_queue phys_offset) (negotiate io_base known) in
      let tx_set = setup_queue io_base 1 (sub_u64 m.tx_queue phys_offset) rx_set in
      (
        new_device m phys_offset io_base (read_mac 6 io_base 0 known),
        out8 tx_set (add_u16 io_base status) (acknowledge + driver + features_ok + driver_ok),
      )

  unfoldable pub init : ℕ → ℕ → ℕ → List Out → Option VirtioNet × List Out
  unfolding pci_read32 pci_write32 set_up
  init bus dev phys_offset outs =
      let (cmd, asked) = pci_read32 hw bus dev 0 0x04 outs in
      let enabled = pci_write32 bus dev 0 0x04 (bit_or cmd 0x5) asked in
      let (bar, outs') = pci_read32 hw bus dev 0 0x10 enabled in
      let bar0 = bar - bar % 4 in
      if ltb 0xFFFF bar0
      then (none, outs')
      else let (d, done) = set_up phys_offset bar0 outs' in (some d, done)

  -- Whether the first register of a function is that of the device.
  unfoldable pub is_virtio_net : ℕ → Bool
  is_virtio_net val = (val % 2 ^ 16 == 0x1AF4) && (val / 2 ^ 16 % 2 ^ 16 == 0x1000)

  -- The devices of a bus that are left; the first that fits ends the loop.
  unfoldable pub probe_devices : ℕ → ℕ → ℕ → ℕ → List Out → Option (Option VirtioNet) × List Out
  unfolding pci_read32 is_virtio_net init
  probe_devices zero bus dev phys_offset outs = (none, outs)
  probe_devices (suc left) bus dev phys_offset outs =
      let (val, asked) = pci_read32 hw bus dev 0 0 outs in
      let rest = probe_devices left bus (dev + 1) phys_offset asked in
      let (found, done) = init bus dev phys_offset asked in
      if val == 0xFFFFFFFF then rest else if is_virtio_net val then (some found, done) else rest

  unfoldable pub probe_buses : ℕ → ℕ → ℕ → List Out → Option VirtioNet × List Out
  probe_buses zero bus phys_offset outs = (none, outs)
  probe_buses (suc left) bus phys_offset outs =
      let (found, outs') = probe_devices 32 bus 0 phys_offset outs in
      let rest = probe_buses left (bus + 1) phys_offset outs' in
      elim found [ some d ↦ (d, outs') | none ↦ rest ]

  unfoldable pub probe : ℕ → List Out → Option VirtioNet × List Out
  probe phys_offset outs = probe_buses 256 0 phys_offset outs
