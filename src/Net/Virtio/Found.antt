-- ===== src/Net/Virtio/Found.antt =====
-- Which device `probe` of kernel/src/net/virtio_net.rs sets up.
use oci_kernel.Prelude.{ℕ, ◌<◌, ◌≤◌, ◌≡◌, true, some, List, length}
use oci_kernel.Net.Virtio.Ports.{Out, Bus, pci_read32}
use oci_kernel.Net.Virtio.{VirtioNet}
use oci_kernel.Net.Virtio.Probe.{Memory, init, is_virtio_net}

-- The driver `d` is what `init` makes of a function 0 that says it is a virtio network device, at a time that the writes `before` tell.
pub record IsFound (hw : Bus) (m : Memory) (phys_offset : ℕ) (d : VirtioNet) : Type 0 where
  pub bus : ℕ
  pub dev : ℕ
  pub before : List Out
  pub bus_fits : bus < 256
  pub dev_fits : dev < 32
  pub known : is_virtio_net hw m (pci_read32 hw bus dev 0 0 before).0 ≡ true
  pub made : (init hw m bus dev phys_offset (pci_read32 hw bus dev 0 0 before).1).0 ≡ some d
  pub port_fits : d.io_base ≤ 0xFFFF
  pub mac_length : length d.mac ≡ 6
