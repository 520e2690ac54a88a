-- ===== src/Host/Getty/Session/KeepsContainers.antt =====
-- The container, image and volume commands of kernel/src/host/getty.rs keep the getty sound.
use oci_kernel.Prelude.{ℕ, ◌≡◌, arith, true, inl, inr, Option-cases, List, [], ◌∷◌, ◌++◌, push}
use oci_kernel.Prelude.Text.{Text, text}
use oci_kernel.Prelude.Decimal.{to_decimal}
use oci_kernel.Container.Spec.{PortMapping, VolumeMount}
use oci_kernel.Container.Runtime
use oci_kernel.Container.Runtime.{Container, running}
use oci_kernel.Container.Store
use oci_kernel.Container.Store.{ContainerRecord}
use oci_kernel.Host.Getty.State.{Getty, println}
use oci_kernel.Host.Getty.Containers
use oci_kernel.Host.Getty.Containers.{
  forward_of, mapping_line, add_forward, add_forwards, forward_ports, announced, started,
  stop_container, set_stopped, show_record, id_of,
}
use oci_kernel.Host.Getty.Images
use oci_kernel.Host.Getty.Images.{help_lines}
use oci_kernel.Host.Getty.Session.Sound.{is_registered, is_sound}
use oci_kernel.Host.Getty.Session.Stores.{
  all_registered-push, is_registered-registered, all_registered-register, all_registered-get_mut,
  distinct_images-push, distinct_images-drop_image, distinct_volumes-push,
  distinct_volumes-drop_volume,
}
use oci_kernel.Host.Getty.Session.KeepsFiles.{println-IsSound, println_all-IsSound, next_id-IsSound}

pub forwarded-IsSound :
    (g : Getty) (id : ℕ) (pm : PortMapping)
    → is_sound g ≡ true
    → is_registered g.store id ≡ true
    → is_sound (record g { forwards = push g.forwards (forward_of id pm) }) ≡ true
unfolding is_sound forward_of
forwarded-IsSound g id pm h k =
    ground (arith, all_registered-push g.store g.forwards (forward_of id pm))

-- The rules of the loop lead to the container that was registered before it.
add_forwards-IsSound :
    (id : ℕ) (pms : List PortMapping) (g : Getty) (fwds : Text)
    → is_sound g ≡ true
    → is_registered g.store id ≡ true
    → is_sound (add_forwards id pms (g, fwds)).0 ≡ true
unfolding add_forwards add_forward println
add_forwards-IsSound id [] g fwds h k = h
add_forwards-IsSound id (pm ∷ pms) g fwds h k =
    let forwarded = record g { forwards = push g.forwards (forward_of id pm) } in
    add_forwards-IsSound id pms (println forwarded (mapping_line pm))
      (fwds ++ Containers.hostfwd pm)
      (println-IsSound forwarded (mapping_line pm) (forwarded-IsSound g id pm h k)) k

forward_ports-IsSound :
    (id : ℕ) (pms : List PortMapping) (g : Getty)
    → is_sound g ≡ true
    → is_registered g.store id ≡ true
    → is_sound (forward_ports id pms g) ≡ true
unfolding forward_ports
forward_ports-IsSound id [] g h k = h
forward_ports-IsSound id (pm ∷ pms) g h k =
    println_all-IsSound (add_forwards id (pm ∷ pms) (g, [])).0
      (Containers.access_lines pm (add_forwards id (pm ∷ pms) (g, [])).1)
      (add_forwards-IsSound id (pm ∷ pms) g [] h k)

pub registered-IsSound :
    (g : Getty) (id : ℕ) (image : Text)
    → is_sound g ≡ true
    → is_sound (record g { store = Store.register g.store id image running }) ≡ true
unfolding is_sound
registered-IsSound g id image h =
    ground (arith, all_registered-register g.store id image running g.forwards)

started-IsSound :
    (g : Getty) (c : Container) (image : Text) (pms : List PortMapping)
    → is_sound g ≡ true
    → is_sound (started g c image pms) ≡ true
unfolding started announced println
started-IsSound g c image pms h =
    let registered = record g { store = Store.register g.store c.id image running } in
    let told =
      println registered
        (text "Container " ++ (to_decimal c.id ++ (text " started  image=" ++ image))) in
    println-IsSound (forward_ports c.id pms told)
      (text "  (M2: actual process needs image pull + overlayfs)")
      (forward_ports-IsSound c.id pms told
        (println-IsSound registered
          (text "Container " ++ (to_decimal c.id ++ (text " started  image=" ++ image)))
          (registered-IsSound g c.id image h))
        (is_registered-registered g.store c.id image running))

pub container_run-IsSound :
    (g : Getty) (image : Text) (pms : List PortMapping) (vs : List VolumeMount)
    → is_sound g ≡ true
    → is_sound (Containers.container_run g image pms vs) ≡ true
unfolding Containers.container_run Runtime.create Runtime.start
container_run-IsSound g image pms vs h =
    let made = Runtime.create (Containers.spec_of image pms vs) g.next_id in
    started-IsSound (record g { next_id = made.1 }) made.0 image pms (next_id-IsSound g made.1 h)

stop_container-IsSound :
    (g : Getty) (n : ℕ) → is_sound g ≡ true → is_sound (stop_container g n) ≡ true
unfolding stop_container println is_sound
stop_container-IsSound g n h = elim (Option-cases (Store.get g.store n)) [
  | inl e ↦ ground arith
  | inr (r, e) ↦ ground (arith, all_registered-get_mut g.store n set_stopped g.forwards)
]

pub container_stop-IsSound :
    (g : Getty) (id : Text) → is_sound g ≡ true → is_sound (Containers.container_stop g id) ≡ true
unfolding Containers.container_stop
container_stop-IsSound g id h = elim (Option-cases (id_of id)) [
  | inl e ↦ ground (arith, println-IsSound g Containers.not_a_number)
  | inr (n, e) ↦ ground (arith, stop_container-IsSound g n)
]

pub show_record-IsSound :
    (lines : ContainerRecord → List Text) (g : Getty) (id : Text)
    → is_sound g ≡ true
    → is_sound (show_record lines g id) ≡ true
unfolding show_record
show_record-IsSound lines g id h = elim (Option-cases (id_of id)) [
  | inl e ↦ ground (arith, println-IsSound g Containers.not_a_number)
  | inr (n, e) ↦ elim (Option-cases (Store.get g.store n)) [
    | inl k ↦ ground (arith, println-IsSound g Containers.not_a_container)
    | inr (r, k) ↦ ground (arith, println_all-IsSound g (lines r))
  ]
]

pub image_pull-IsSound :
    (g : Getty) (name tag : Text)
    → is_sound g ≡ true
    → is_sound (Images.image_pull g name tag) ≡ true
unfolding Images.image_pull println is_sound
image_pull-IsSound g name tag h = ground (arith, distinct_images-push g.images name tag)

pub image_remove-IsSound :
    (g : Getty) (name tag : Text)
    → is_sound g ≡ true
    → is_sound (Images.image_remove g name tag) ≡ true
unfolding Images.image_remove println is_sound
image_remove-IsSound g name tag h = ground (arith, distinct_images-drop_image g.images name tag)

pub volume_create-IsSound :
    (g : Getty) (name : Text) → is_sound g ≡ true → is_sound (Images.volume_create g name) ≡ true
unfolding Images.volume_create println is_sound
volume_create-IsSound g name h = ground (arith, distinct_volumes-push g.volumes name)

pub volume_remove-IsSound :
    (g : Getty) (name : Text) → is_sound g ≡ true → is_sound (Images.volume_remove g name) ≡ true
unfolding Images.volume_remove println is_sound
volume_remove-IsSound g name h = ground (arith, distinct_volumes-drop_volume g.volumes name)
