-- ===== src/Host/Getty/Images.antt =====
-- The image, volume, help and kernel commands of `execute` in kernel/src/host/getty.rs.
use oci_kernel.Prelude.{
  Bool, true, false, ◌&&◌, ltb, if◌then◌else◌, List, [], ◌∷◌, ◌++◌, length, push,
}
use oci_kernel.Prelude.Text.{Text, text, text_eq}
use oci_kernel.Prelude.Decimal.{to_decimal}
use oci_kernel.Container.Spec.{ActivePortForward}
use oci_kernel.Host.Getty.State.{Getty, println, println_all}
use oci_kernel.Host.Getty.Format.{pad_right}

-- `name:tag`
unfoldable pub image_ref : Text → Text → Text
image_ref name tag = name ++ (text ":" ++ tag)

unfoldable pub is_image : Text → Text → Text × Text → Bool
is_image name tag (n, t) = text_eq n name && text_eq t tag

unfoldable pub has_image : List (Text × Text) → Text → Text → Bool
unfolding is_image
has_image [] name tag = false
has_image (i ∷ is) name tag =
    let rest = has_image is name tag in if is_image name tag i then true else rest

unfoldable pub image_rows : List (Text × Text) → List Text
unfolding pad_right
image_rows [] = []
image_rows ((name, tag) ∷ is) = (pad_right 19 name ++ (text "  " ++ tag)) ∷ image_rows is

unfoldable pub image_lines : List (Text × Text) → List Text
unfolding image_rows
image_lines [] = text "No images. Use 'image pull <name:tag>' to add one." ∷ []
image_lines (i ∷ is) =
    text "REPOSITORY           TAG" ∷ text "───────────────────  ──────────" ∷ image_rows (i ∷ is)

unfoldable pub image_list : Getty → Getty
unfolding image_lines println_all
image_list g = println_all g (image_lines g.images)

unfoldable pub image_pull : Getty → Text → Text → Getty
unfolding has_image image_ref println
image_pull g name tag =
    let told =
      println (println g (text "Pulling " ++ (image_ref name tag ++ text "...")))
        (text "  (M2: HTTPS + OCI registry pull not yet wired)") in
    if has_image g.images name tag
    then println told (image_ref name tag ++ text " already present.")
    else println (record told { images = push g.images (name, tag) })
        (text "Cached " ++ (image_ref name tag ++ text " locally."))

-- `retain` of the others.
unfoldable pub drop_image : Text → Text → List (Text × Text) → List (Text × Text)
unfolding is_image
drop_image name tag [] = []
drop_image name tag (i ∷ is) =
    let rest = drop_image name tag is in if is_image name tag i then rest else i ∷ rest

unfoldable pub image_remove : Getty → Text → Text → Getty
unfolding drop_image image_ref println
image_remove g name tag =
    let left = drop_image name tag g.images in
    let dropped = record g { images = left } in
    if ltb (length left) (length g.images)
    then println dropped (text "Removed " ++ (image_ref name tag ++ text "."))
    else println dropped (image_ref name tag ++ text " not found.")

unfoldable pub has_volume : List Text → Text → Bool
has_volume [] name = false
has_volume (v ∷ vs) name = let rest = has_volume vs name in if text_eq v name then true else rest

unfoldable pub volume_create : Getty → Text → Getty
unfolding has_volume println
volume_create g name =
    if has_volume g.volumes name
    then println g (text "Volume '" ++ (name ++ text "' already exists."))
    else println (record g { volumes = push g.volumes name })
        (text "Volume '" ++ (name ++ text "' created."))

unfoldable pub drop_volume : Text → List Text → List Text
drop_volume name [] = []
drop_volume name (v ∷ vs) =
    let rest = drop_volume name vs in if text_eq v name then rest else v ∷ rest

unfoldable pub volume_remove : Getty → Text → Getty
unfolding drop_volume println
volume_remove g name =
    let left = drop_volume name g.volumes in
    let dropped = record g { volumes = left } in
    if ltb (length left) (length g.volumes)
    then println dropped (text "Volume '" ++ (name ++ text "' removed."))
    else println dropped (text "Volume '" ++ (name ++ text "' not found."))

abbrev pub help_lines : List Text
help_lines =
    text "Filesystem:"
    ∷ text "  ls [path]     cd [path]     pwd"
    ∷ text "  cat <file>    echo <text> [> file]"
    ∷ text "  touch <file>  mkdir <dir>   rm <file>"
    ∷ text "System:"
    ∷ text "  uname [-a]    free          df"
    ∷ text "  lsblk         ps            clear"
    ∷ text "Containers:"
    ∷ text "  container run <image> [-p host:ctr] [-v src:dst[:ro]]"
    ∷ text "  container list | ls | ps"
    ∷ text "  container stop <id> | inspect <id> | logs <id>"
    ∷ text "  container pull <name:tag>"
    ∷ text "Images:"
    ∷ text "  image pull <name:tag> | list | rm <name:tag>"
    ∷ text "Volumes:"
    ∷ text "  volume create <name> | rm <name>"
    ∷ text "Kernel:"
    ∷ text "  kernel info"
    ∷ []

unfoldable pub help : Getty → Getty
help g = println_all g help_lines

unfoldable pub forward_rows : List ActivePortForward → List Text
forward_rows [] = []
forward_rows (r ∷ rs) =
    (text "  ctr "
      ++ (to_decimal r.container_id
          ++ (text " : host:"
              ++ (to_decimal r.host_port
                  ++ (text " → container:" ++ to_decimal r.container_port)))))
    ∷ forward_rows rs

unfoldable pub hostfwds : List ActivePortForward → Text
hostfwds [] = []
hostfwds (r ∷ rs) =
    (text ",hostfwd=tcp::"
      ++ (to_decimal r.host_port ++ (text "-:" ++ to_decimal r.container_port)))
    ++ hostfwds rs

unfoldable pub port_lines : List ActivePortForward → List Text
unfolding forward_rows hostfwds
port_lines [] = text "Ports: (none — use 'container run -p host:ctr')" ∷ []
port_lines (r ∷ rs) =
    text "Ports:"
    ∷ (forward_rows (r ∷ rs)
        ++ ((text "  QEMU: make qemu HOSTFWD=\"" ++ (hostfwds (r ∷ rs) ++ text "\""))
            ∷ text "  Real HW: access via <machine-ip>:<host-port> directly"
            ∷ []))

unfoldable pub kernel_info : Getty → Getty
unfolding println_all port_lines
kernel_info g = println_all g (
    text "OCI Kernel 0.1.0  arch=x86_64  build=no_std"
    ∷ text "Heap: 8MB at 0xFFFF_C000_0000_0000"
    ∷ text "Net:  smoltcp 0.11 / virtio-net / 10.0.2.15/24"
    ∷ text "      QEMU SLIRP NAT — gateway 10.0.2.2"
    ∷ port_lines g.forwards)
