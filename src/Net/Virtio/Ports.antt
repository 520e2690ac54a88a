-- ===== src/Net/Virtio/Ports.antt =====
-- The port instructions of kernel/src/net/virtio_net.rs. What a port reads as may depend on every
-- write before: `Bus` is the hardware.
use oci_kernel.Prelude.{ℕ, ◌+◌, ◌-◌, ◌*◌, ◌%◌, ◌^◌, List, push}

-- A write of 8, 16 or 32 bits to a port.
pub record Out : Type 0 where
  pub bits : ℕ
  pub port : ℕ
  pub value : ℕ

pub record Bus : Type 0 where
  pub in8 : List Out → ℕ → ℕ
  pub in32 : List Out → ℕ → ℕ

unfoldable pub out8 : List Out → ℕ → ℕ → List Out
out8 outs port value = push outs (record { bits = 8; port = port; value = value })

unfoldable pub out16 : List Out → ℕ → ℕ → List Out
out16 outs port value = push outs (record { bits = 16; port = port; value = value })

unfoldable pub out32 : List Out → ℕ → ℕ → List Out
out32 outs port value = push outs (record { bits = 32; port = port; value = value })

abbrev pub pci_config_addr : ℕ
pci_config_addr = 0xCF8

abbrev pub pci_config_data : ℕ
pci_config_data = 0xCFC

-- The fields do not overlap, so that the sum is their `|`; `offset & 0xFC` drops the two low bits.
unfoldable pub config_address : ℕ → ℕ → ℕ → ℕ → ℕ
config_address bus dev func offset =
    0x80000000 + bus * 2 ^ 16 + dev * 2 ^ 11 + func * 2 ^ 8 + (offset - offset % 4)

module _ (hw : Bus) where
  unfoldable pub pci_read32 : ℕ → ℕ → ℕ → ℕ → List Out → ℕ × List Out
  unfolding config_address out32
  pci_read32 bus dev func offset outs =
      let asked = out32 outs pci_config_addr (config_address bus dev func offset) in
      (hw.in32 asked pci_config_data, asked)

unfoldable pub pci_write32 : ℕ → ℕ → ℕ → ℕ → ℕ → List Out → List Out
unfolding config_address out32
pci_write32 bus dev func offset value outs =
    out32 (out32 outs pci_config_addr (config_address bus dev func offset)) pci_config_data value
