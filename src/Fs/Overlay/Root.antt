-- ===== src/Fs/Overlay/Root.antt =====
-- `OverlayMount::new_kernel_root` of kernel/src/fs/overlayfs.rs.
use Prim.Native.String.{String}
use oci_kernel.Prelude.{List, [], ◌∷◌, ◌≡◌, refl, true, ok}
use oci_kernel.Prelude.Order.{text_key, cmp_list}
use oci_kernel.Prelude.Text
use oci_kernel.Prelude.BTreeMap
use oci_kernel.Prelude.BTreeSet
use oci_kernel.Prelude.Text.{Text, text}
use oci_kernel.Fs.MemLayer
use oci_kernel.Fs.MemLayer.{MemLayer}
use oci_kernel.Fs.UpperLayer
use oci_kernel.Fs.Overlay.{
  OverlayMount, new, is_dir, list, read, all_paths, lower_paths, search, gather, entry,
  component_entry, label, with_slash,
}

-- The calls of `layer.insert`, in order.
abbrev root_files : List (String × String)
root_files =
    ("/etc/hostname", "oci-kernel")
    ∷ (
      "/etc/os-release",
      "NAME=OCI Kernel\nVERSION=0.1.0\nID=oci-kernel\nPRETTY_NAME=OCI Kernel 0.1.0\n",
    )
    ∷ (
      "/etc/motd",
      "Welcome to OCI Kernel 0.1.0\nThe kernel IS the container runtime.\nType 'help' for available commands.\n",
    )
    ∷ ("/proc/version", "OCI Kernel 0.1.0 (x86_64 no_std Rust) #1")
    ∷ ("/proc/cpuinfo", "processor\t: 0\nmodel name\t: x86_64\n")
    ∷ ("/home/root/.profile", "# OCI Kernel root profile\n")
    ∷ (
      "/home/root/readme.txt",
      "OCI Kernel 0.1.0 - a Rust bare-metal OCI container runtime kernel.\nType 'help' for shell commands.\n",
    )
    ∷ ("/var/log/kernel.log", "[boot] OCI Kernel 0.1.0 initialized\n")
    ∷ ("/dev/.keep", "")
    ∷ ("/tmp/.keep", "")
    ∷ ("/bin/.keep", "")
    ∷ ("/var/.keep", "")
    ∷ ("/var/log/.keep", "")
    ∷ []

insert_all : List (String × String) → MemLayer → MemLayer
insert_all [] layer = layer
insert_all ((path, bytes) ∷ rest) layer =
    insert_all rest (MemLayer.insert layer (text path) (text bytes))

unfoldable pub new_kernel_root : OverlayMount
unfolding insert_all MemLayer.new MemLayer.insert
new_kernel_root = new (insert_all root_files MemLayer.new ∷ [])

-- What the shell shows of the fresh root, hidden markers left out.
root_listing :
    (list new_kernel_root (text "/")
      ≡ text "bin/"
        ∷ text "dev/"
        ∷ text "etc/"
        ∷ text "home/"
        ∷ text "proc/"
        ∷ text "tmp/"
        ∷ text "var/"
        ∷ [])
    × (list new_kernel_root (text "/var") ≡ text "log/" ∷ [])
    × (list new_kernel_root (text "/home/root") ≡ text "readme.txt" ∷ [])
    × (is_dir new_kernel_root (text "/tmp/") ≡ true)
    × (read new_kernel_root (text "/etc/hostname") ≡ ok (text "oci-kernel"))
unfolding new_kernel_root insert_all new list is_dir read all_paths lower_paths search gather entry
    component_entry label with_slash MemLayer.new MemLayer.insert MemLayer.read UpperLayer.new
    UpperLayer.read BTreeMap.keys BTreeMap.insert BTreeMap.get BTreeSet.insert text_key cmp_list
    Text.text_eq Text.is_empty Text.strip_prefix Text.starts_with Text.before_first
    Text.trim_end_matches
root_listing = (refl, refl, refl, refl, refl)
