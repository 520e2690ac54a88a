-- ===== src/Net/Virtio/FoundExamples.antt =====
-- `probe` of kernel/src/net/virtio_net.rs on a bus with one device.
use oci_kernel.Prelude.{ℕ, ◌%◌, ◌==◌, if◌then◌else◌, List, [], ◌∷◌}
use oci_kernel.Net.Virtio.Ports.{Out, Bus}
use oci_kernel.Net.Virtio.{VirtioNet}
use oci_kernel.Net.Virtio.Probe.{Memory, new_device}

abbrev memory : Memory
memory = record { rx_queue = 0x10000; tx_queue = 0x20000; rx_bufs = 0x30000; tx_buf = 0x40000 }

last_value : List Out → ℕ
last_value [] = 0
last_value (o ∷ []) = o.value
last_value (o ∷ p ∷ outs) = last_value (p ∷ outs)

-- Device 1 of bus 0 is a network device with the port 0xC000; no other function answers.
answer : ℕ → ℕ
answer address =
    if address == 0x80000800
    then 0x10001AF4
    else if address == 0x80000810
    then 0xC001
    else 0xFFFFFFFF

abbrev hw : Bus
hw = record { in8 = λ outs port. port % 256; in32 = λ outs port. answer (last_value outs) }

abbrev found : VirtioNet
found = new_device memory 0 0xC000 (20 ∷ 21 ∷ 22 ∷ 23 ∷ 24 ∷ 25 ∷ [])
