-- ===== src/Host/Getty/Examples.antt =====
-- The path resolution and the effects of kernel/src/host/getty.rs at concrete inputs.
use oci_kernel.Prelude.{◌≡◌, refl, if◌then◌else◌, some, [], ◌∷◌, ◌++◌, push}
use oci_kernel.Prelude.Text.{Text, text, split, starts_with, text_eq, is_empty}
use oci_kernel.Prelude.Words.{join}
use oci_kernel.Prelude.Utf8.Laws.{are_scalars}
use oci_kernel.Fs.Overlay
use oci_kernel.Container.Store
use oci_kernel.Container.Store.{ContainerRecord}
use oci_kernel.Container.Runtime.{running}
use oci_kernel.Container.Spec.{PortMapping}
use oci_kernel.Net.VSwitch
use oci_kernel.Net.VSwitch.{lookup_port_forward, is_free}
use oci_kernel.Host.Getty.State.{Getty, new, print}
use oci_kernel.Host.Getty.Path.{resolve_path, collapse, add_segment, drop_last, render, raw_path}
use oci_kernel.Host.Getty.Path.Laws.{resolve_path-compose}
use oci_kernel.Host.Getty.Files
use oci_kernel.Host.Getty.Containers.{container_run}
use oci_kernel.Host.Getty.Images
use oci_kernel.Host.Getty.ImageSet.{image_set, insert, erase, image_set-pull_remove}
use oci_kernel.Host.Getty.Effects.{mapped_port, target, cat-echo, lookup_port_forward-container_run}

abbrev home : Text
home = text "/home/root"

resolve_up : resolve_path home (text "../x/./y//") ≡ text "/home/x/y"
unfolding resolve_path collapse add_segment drop_last render raw_path split starts_with text_eq
    is_empty join
resolve_up = refl

resolve_path-compose_example :
    resolve_path home (text "../x" ++ (b'/' ∷ text "../y"))
    ≡ resolve_path (resolve_path home (text "../x")) (text "../y")
unfolding starts_with
resolve_path-compose_example = resolve_path-compose home (text "../x") (text "../y") (λ e. cc) refl

abbrev fresh : Getty
fresh = new (Overlay.new [])

cat-echo_example :
    Files.cat (Files.echo fresh (text "grüße") (some (text "f"))) (text "f")
    ≡ print (Files.echo fresh (text "grüße") (some (text "f"))) (push (text "grüße") 10)
unfolding are_scalars
cat-echo_example = cat-echo fresh (text "grüße") (text "f") refl

abbrev web : PortMapping
web = record { host = 8080; container = 80 }

abbrev secure : PortMapping
secure = record { host = 8443; container = 443 }

-- The second mapping of the command leads to its port.
lookup_port_forward-container_run_example :
    (lookup_port_forward VSwitch.new
        (container_run fresh (text "nginx") (web ∷ secure ∷ []) []).forwards
        8443
      ≡ (if is_free fresh.forwards 8443
          then target fresh.next_id (mapped_port (web ∷ secure ∷ []) 8443)
          else lookup_port_forward VSwitch.new fresh.forwards 8443))
    × (Store.get (container_run fresh (text "nginx") (web ∷ secure ∷ []) []).store fresh.next_id
        ≡ some (record { id = fresh.next_id; image = text "nginx"; state = running }))
lookup_port_forward-container_run_example =
    lookup_port_forward-container_run VSwitch.new fresh (text "nginx") (web ∷ secure ∷ []) [] 8443

second_mapping : target fresh.next_id (mapped_port (web ∷ secure ∷ []) 8443) ≡ some (1, 443)
unfolding target mapped_port new
second_mapping = refl

image_set-pull_remove_example :
    (image_set (Images.image_pull fresh (text "nginx") (text "latest")) (text "nginx") (text "1.27")
      ≡ insert (image_set fresh) (text "nginx") (text "latest") (text "nginx") (text "1.27"))
    × (image_set
          (Images.image_remove fresh (text "nginx") (text "latest"))
          (text "nginx")
          (text "1.27")
        ≡ erase (image_set fresh) (text "nginx") (text "latest") (text "nginx") (text "1.27"))
image_set-pull_remove_example =
    image_set-pull_remove fresh (text "nginx") (text "latest") (text "nginx") (text "1.27")
