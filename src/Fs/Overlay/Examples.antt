-- ===== src/Fs/Overlay/Examples.antt =====
-- The theorems on kernel/src/fs/overlayfs.rs at the root of the kernel.
use oci_kernel.Prelude.{◌≡◌, [], ◌∷◌, none, if◌then◌else◌, ok}
use oci_kernel.Prelude.Order.{text_key, ◌≟◌}
use oci_kernel.Prelude.Text.{Text, text}
use oci_kernel.Fs.Overlay.{read, read_lower, write, remove}
use oci_kernel.Fs.Overlay.Root.{new_kernel_root}
use oci_kernel.Fs.Overlay.Files.{or_lower, read-write, read-remove}

abbrev motd : Text
motd = text "/etc/motd"

read-write_example : read (write new_kernel_root motd (1 ∷ 2 ∷ [])).1 (text "/etc/hostname") ≡ (
    if text "/etc/hostname" ≟ motd
    then ok (1 ∷ 2 ∷ [])
    else read new_kernel_root (text "/etc/hostname"))
read-write_example = read-write new_kernel_root motd (1 ∷ 2 ∷ []) (text "/etc/hostname")

read-remove_example : read (remove (write new_kernel_root motd []).1 motd).1 motd ≡ (
    if motd ≟ motd
    then or_lower none (read_lower (write new_kernel_root motd []).1 motd)
    else read (write new_kernel_root motd []).1 motd)
read-remove_example = read-remove (write new_kernel_root motd []).1 motd motd
