-- ===== src/Host/Getty/Effects.antt =====
-- What the commands of kernel/src/host/getty.rs change.
use mathlib.Core.List.{append-nil}
use oci_kernel.Prelude.{
  push-append, ℕ, ◌≡◌, refl, sym, ap, ◌∙◌, arith, true, ◌==◌, if◌then◌else◌, Option, none, some,
  List, [], ◌∷◌, ◌++◌, push, ok,
}
use oci_kernel.Prelude.Order.{nat_key, text_key}
use oci_kernel.Prelude.Text.{Text}
use oci_kernel.Prelude.Utf8.{as_bytes}
use oci_kernel.Prelude.Utf8.Laws.{are_scalars, from_utf8-as_bytes}
use oci_kernel.Prelude.BTreeMap.{get-insert}
use oci_kernel.Fs.Overlay
use oci_kernel.Fs.Overlay.{read, write}
use oci_kernel.Fs.Overlay.Files.{read-write}
use oci_kernel.Container.Spec.{PortMapping, VolumeMount, ActivePortForward}
use oci_kernel.Container.Runtime
use oci_kernel.Container.Runtime.{Container, running, stopped}
use oci_kernel.Container.Store
use oci_kernel.Container.Store.{ContainerRecord, ContainerStore}
use oci_kernel.Net.VSwitch.{VSwitch, lookup_port_forward, is_free}
use oci_kernel.Host.Getty.State.{Getty, print, println, println_all}
use oci_kernel.Host.Getty.Path.{resolve_path}
use oci_kernel.Host.Getty.Files
use oci_kernel.Host.Getty.Containers
use oci_kernel.Host.Getty.Containers.{
  forward_of, add_forward, add_forwards, announced, forward_ports, started, container_run,
  access_lines, hostfwd, set_stopped,
}

push-are_scalars : (s : Text) → are_scalars s ≡ true → are_scalars (push s 10) ≡ true
unfolding are_scalars
push-are_scalars [] h = refl
push-are_scalars (c ∷ s) h = ground (arith, push-are_scalars s)

read-written :
    (m : Overlay.OverlayMount) (path : Text) (bytes : List ℕ)
    → read (write m path bytes).1 path ≡ ok bytes
read-written m path bytes = ground (arith, read-write m path bytes path, text_key.cmp_refl path)

-- `cat` after `echo` with a redirection prints the text and the line end, whatever the directory and the file system are, for a text of Unicode characters.
pub cat-echo :
    (g : Getty) (s file : Text)
    → are_scalars s ≡ true
    → Files.cat (Files.echo g s (some file)) file ≡ print (Files.echo g s (some file)) (push s 10)
unfolding Files.cat Files.echo Files.write_file Files.show_file Files.show_text
cat-echo g s file h =
    let p = resolve_path g.cwd file in
    ground (
      arith,
      read-written g.root_fs p (as_bytes (push s 10)),
      from_utf8-as_bytes (push s 10),
      push-are_scalars s,
    )

println_all-forwards : (g : Getty) (ss : List Text) → (println_all g ss).forwards ≡ g.forwards
unfolding println_all println
println_all-forwards g [] = refl
println_all-forwards g (s ∷ ss) = println_all-forwards (println g s) ss

println_all-store : (g : Getty) (ss : List Text) → (println_all g ss).store ≡ g.store
unfolding println_all println
println_all-store g [] = refl
println_all-store g (s ∷ ss) = println_all-store (println g s) ss

unfoldable forwards_of : ℕ → List PortMapping → List ActivePortForward
unfolding forward_of
forwards_of id [] = []
forwards_of id (pm ∷ pms) = forward_of id pm ∷ forwards_of id pms

add_forwards-forwards :
    (id : ℕ) (pms : List PortMapping) (state : Getty × Text)
    → (add_forwards id pms state).0.forwards ≡ state.0.forwards ++ forwards_of id pms
unfolding add_forwards add_forward forwards_of println
add_forwards-forwards id [] state = sym (append-nil state.0.forwards)
add_forwards-forwards id (pm ∷ pms) state =
    add_forwards-forwards id pms (add_forward id pm state)
    ∙ push-append state.0.forwards (forward_of id pm) (forwards_of id pms)

add_forwards-store :
    (id : ℕ) (pms : List PortMapping) (state : Getty × Text)
    → (add_forwards id pms state).0.store ≡ state.0.store
unfolding add_forwards add_forward println
add_forwards-store id [] state = refl
add_forwards-store id (pm ∷ pms) state = add_forwards-store id pms (add_forward id pm state)

forward_ports-forwards :
    (id : ℕ) (pms : List PortMapping) (g : Getty)
    → (forward_ports id pms g).forwards ≡ g.forwards ++ forwards_of id pms
unfolding forward_ports
forward_ports-forwards id [] g = unfold forwards_of in sym (append-nil g.forwards)
forward_ports-forwards id (pm ∷ pms) g =
    let looped = add_forwards id (pm ∷ pms) (g, []) in
    println_all-forwards looped.0 (access_lines pm looped.1)
    ∙ add_forwards-forwards id (pm ∷ pms) (g, [])

forward_ports-store :
    (id : ℕ) (pms : List PortMapping) (g : Getty) → (forward_ports id pms g).store ≡ g.store
unfolding forward_ports
forward_ports-store id [] g = refl
forward_ports-store id (pm ∷ pms) g =
    let looped = add_forwards id (pm ∷ pms) (g, []) in
    println_all-store looped.0 (access_lines pm looped.1) ∙ add_forwards-store id (pm ∷ pms) (g, [])

abbrev after_register : Getty → Text → List PortMapping → List VolumeMount → Getty
after_register g image pms vs =
    let made = Runtime.create (Containers.spec_of image pms vs) g.next_id in
    announced (record g { next_id = made.1 }) made.0 image

container_run-forwards :
    (g : Getty) (image : Text) (pms : List PortMapping) (vs : List VolumeMount)
    → (container_run g image pms vs).forwards ≡ g.forwards ++ forwards_of g.next_id pms
unfolding container_run started announced println Runtime.create Runtime.start Runtime.next_id
container_run-forwards g image pms vs =
    forward_ports-forwards g.next_id pms (after_register g image pms vs)

container_run-store :
    (g : Getty) (image : Text) (pms : List PortMapping) (vs : List VolumeMount)
    → (container_run g image pms vs).store ≡ Store.register g.store g.next_id image running
unfolding container_run started announced println Runtime.create Runtime.start Runtime.next_id
container_run-store g image pms vs =
    forward_ports-store g.next_id pms (after_register g image pms vs)

-- After `container run` the container is in the store, and it runs.
container_run-get :
    (g : Getty) (image : Text) (pms : List PortMapping) (vs : List VolumeMount)
    → Store.get (container_run g image pms vs).store g.next_id
      ≡ some (record { id = g.next_id; image = image; state = running })
unfolding Store.get Store.register
container_run-get g image pms vs = ground (
  arith,
  container_run-store g image pms vs,
  get-insert g.next_id g.next_id (record { id = g.next_id; image = image; state = running })
      g.store.entries,
  nat_key.cmp_refl g.next_id,
)

-- The container port that the first of these mappings has for a port of the host.
unfoldable pub mapped_port : List PortMapping → ℕ → Option ℕ
mapped_port [] port = none
mapped_port (pm ∷ pms) port = if pm.host == port then some pm.container else mapped_port pms port

-- Where the port of a container leads to, if there is one.
unfoldable pub target : ℕ → Option ℕ → Option (ℕ × ℕ)
target id none = none
target id (some port) = some (id, port)

lookup_port_forward-forwards_of :
    (v : VSwitch) (id : ℕ) (pms : List PortMapping) (port : ℕ)
    → lookup_port_forward v (forwards_of id pms) port ≡ target id (mapped_port pms port)
unfolding lookup_port_forward forwards_of forward_of mapped_port target
lookup_port_forward-forwards_of v id [] port = refl
lookup_port_forward-forwards_of v id (pm ∷ pms) port =
    ground (arith, lookup_port_forward-forwards_of v id pms port)

lookup_port_forward-append :
    (v : VSwitch) (rs more : List ActivePortForward) (port : ℕ)
    → lookup_port_forward v (rs ++ more) port
      ≡ (if is_free rs port then lookup_port_forward v more port else lookup_port_forward v rs port)
unfolding lookup_port_forward is_free
lookup_port_forward-append v [] more port = refl
lookup_port_forward-append v (r ∷ rs) more port =
    ground (arith, lookup_port_forward-append v rs more port)

-- After `container run` the switch sends every port of the host as before where a rule was for it; each other port goes to the new container, to the port that the first mapping of the command for it names, and nowhere where no mapping is for it. The container is in the store and runs.
pub lookup_port_forward-container_run :
    (v : VSwitch) (g : Getty) (image : Text) (pms : List PortMapping) (vs : List VolumeMount)
    (port : ℕ)
    → (lookup_port_forward v (container_run g image pms vs).forwards port ≡ (
        if is_free g.forwards port
        then target g.next_id (mapped_port pms port)
        else lookup_port_forward v g.forwards port))
      × (Store.get (container_run g image pms vs).store g.next_id
          ≡ some (record { id = g.next_id; image = image; state = running }))
lookup_port_forward-container_run v g image pms vs port = (
  ap (λ rs. lookup_port_forward v rs port) (container_run-forwards g image pms vs)
      ∙ lookup_port_forward-append v g.forwards (forwards_of g.next_id pms) port
      ∙ ap (λ t. if is_free g.forwards port then t else lookup_port_forward v g.forwards port)
          (lookup_port_forward-forwards_of v g.next_id pms port),
  container_run-get g image pms vs,
)

-- `container stop` of a registered number makes exactly that container stopped, from whatever state it is in.
pub get-container_stop :
    (g : Getty) (n other : ℕ) (r : ContainerRecord)
    → Store.get g.store n ≡ some r
    → Store.get (Containers.stop_container g n).store other
      ≡ (if other == n then some (set_stopped r) else Store.get g.store other)
unfolding Containers.stop_container println Store.get Store.get_mut
get-container_stop g n other r h =
    ground (arith, get-insert n other (set_stopped r) g.store.entries)
