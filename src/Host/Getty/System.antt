-- ===== src/Host/Getty/System.antt =====
-- The system commands of `execute` in kernel/src/host/getty.rs. The registers of a PCI function are
-- read through the ports 0xCF8 and 0xCFC: `read_pci` is what they hold at an address.
use oci_kernel.Prelude.{
  ℕ, zero, suc, ◌+◌, ◌*◌, ◌/◌, ◌%◌, ◌^◌, Bool, true, false, ◌==◌, if◌then◌else◌, List, [], ◌∷◌,
  ◌++◌, length,
}
use oci_kernel.Prelude.Text.{Text, text}
use oci_kernel.Prelude.Decimal.{to_decimal}
use oci_kernel.Fs.Overlay
use oci_kernel.Container.Runtime.{ContainerState, created, running, stopping, stopped}
use oci_kernel.Container.Store
use oci_kernel.Container.Store.{ContainerRecord}
use oci_kernel.Host.Getty.State.{Getty, print, println, println_all}
use oci_kernel.Host.Getty.Format.{pad_right, pad_left, hex}

unfoldable pub clear : Getty → Getty
unfolding print
clear g = print g (27 ∷ (text "[2J" ++ (27 ∷ text "[H")))

unfoldable pub uname : Getty → Bool → Getty
unfolding println
uname g all =
    if all
    then println g (text "OCI Kernel 0.1.0 oci-kernel 0.1.0 #1 SMP x86_64")
    else println g (text "OCI Kernel")

abbrev pub heap_size : ℕ
heap_size = 8 * 1024 * 1024

unfoldable pub free : Getty → Getty
unfolding println pad_left
free g = println (println g (text "              total")) (
    text "Heap:      "
    ++ (pad_left 8 (to_decimal (heap_size / 1024)) ++ text " KB  (at 0xFFFF_C000_0000_0000)"))

unfoldable pub storage_kind : ℕ → Text
storage_kind subclass =
    if subclass == 0x01
    then text "IDE/ATA"
    else if subclass == 0x06
    then text "SATA"
    else if subclass == 0x07
    then text "SAS"
    else if subclass == 0x08
    then text "NVMe"
    else text "storage"

-- The fields of the address do not overlap, so that the sum is their `|`.
abbrev pub pci_address : ℕ → ℕ → ℕ
pci_address dev func = 0x80000000 + dev * 2 ^ 11 + func * 2 ^ 8

unfoldable pub device_line : ℕ → ℕ → ℕ → Text → Text
unfolding pad_right hex
device_line dev func vendor_device kind =
    text "00:"
    ++ (hex 2 dev
        ++ (text "."
            ++ (to_decimal func
                ++ (text "  "
                    ++ (pad_right 8 kind
                        ++ (text "  "
                            ++ (hex 4 (vendor_device % 2 ^ 16)
                                ++ (text ":" ++ hex 4 (vendor_device / 2 ^ 16 % 2 ^ 16)))))))))

abbrev pub lsblk_heading : List Text
lsblk_heading = text "NAME       TYPE      PCI ID" ∷ text "─────────  ────────  ──────────────" ∷ []

unfoldable pub lsblk_end : Getty × Bool → Getty
unfolding println
lsblk_end (g, true) = g
lsblk_end (g, false) = println g (text "(no mass-storage controllers detected)")

module _ (read_pci : ℕ → ℕ) where
  -- One function of a device: the screen, and whether it is mass storage.
  unfoldable pub show_function : ℕ → ℕ → Getty × Bool → Getty × Bool
  unfolding device_line println storage_kind
  show_function dev func (g, found) =
      let addr = pci_address dev func in
      let class_info = read_pci (addr + 0x08) in
      if class_info / 2 ^ 24 % 2 ^ 8 == 0x01
      then (
        println g
            (device_line dev func (read_pci addr) (storage_kind (class_info / 2 ^ 16 % 2 ^ 8))),
        true,
      )
      else (g, found)

  -- The functions that are left; a device whose function 0 says that it has one function ends the loop.
  unfoldable pub scan_functions : ℕ → ℕ → ℕ → Getty × Bool → Getty × Bool
  unfolding show_function
  scan_functions zero dev func state = state
  scan_functions (suc left) dev func state =
      let addr = pci_address dev func in
      let shown = show_function dev func state in
      let absent = scan_functions left dev (func + 1) state in
      let next = scan_functions left dev (func + 1) shown in
      let single = read_pci (addr + 0x0C) / 2 ^ 16 % 2 ^ 8 / 2 ^ 7 == 0 in
      if read_pci addr == 0xFFFFFFFF
      then absent
      else if func == 0
      then (if single then shown else next)
      else next

  unfoldable pub scan_devices : ℕ → ℕ → Getty × Bool → Getty × Bool
  unfolding scan_functions
  scan_devices zero dev state = state
  scan_devices (suc left) dev state = scan_devices left (dev + 1) (scan_functions 8 dev 0 state)

  unfoldable pub lsblk : Getty → Getty
  lsblk g = lsblk_end (scan_devices 32 0 (println_all g lsblk_heading, false))

unfoldable pub df : Getty → Getty
unfolding println println_all
df g =
    let top = Overlay.list g.root_fs (text "/") in
    println
      (println_all g (
        text "Filesystem   Type       Mounted on"
        ∷ text "─────────────────────────────────────────────"
        ∷ text "rootfs       overlayfs  /          (in-memory)"
        ∷ text "tmpfs        overlayfs  /tmp       (in-memory)"
        ∷ []))
      (10 ∷ (to_decimal (length top) ++ text " top-level directories/files in root overlay"))

unfoldable pub status_of : ContainerState → Text
status_of running = text "running"
status_of created = text "created"
status_of stopping = text "stopping"
status_of stopped = text "stopped"

-- The rows, from the index `i` on.
unfoldable pub ps_rows : ℕ → List ContainerRecord → List Text
unfolding pad_right status_of
ps_rows i [] = []
ps_rows i (r ∷ rs) =
    (pad_right 4 (to_decimal (i + 1))
      ++ (text "  " ++ (pad_right 19 r.image ++ (text "  " ++ status_of r.state))))
    ∷ ps_rows (i + 1) rs

unfoldable pub or_line : List Text → Text → List Text
or_line [] s = s ∷ []
or_line (r ∷ rs) s = r ∷ rs

unfoldable pub ps : Getty → Getty
unfolding println_all ps_rows or_line
ps g = println_all g (
    text "PID   IMAGE                STATUS"
    ∷ text "────  ───────────────────  ─────────"
    ∷ or_line (ps_rows 0 (Store.all g.store)) (text "(no processes)"))
