-- ===== src/Host/Getty/Containers.antt =====
-- The container commands of `execute` in kernel/src/host/getty.rs.
use oci_kernel.Prelude.{ℕ, ◌^◌, Option, none, some, List, [], ◌∷◌, ◌++◌, push, ok, err}
use oci_kernel.Prelude.Text.{Text, text, trim, parse_unsigned}
use oci_kernel.Prelude.Decimal.{to_decimal}
use oci_kernel.Container.Spec
use oci_kernel.Container.Spec.{ContainerSpec, PortMapping, VolumeMount, ActivePortForward}
use oci_kernel.Container.Runtime
use oci_kernel.Container.Runtime.{
  Container, ContainerState, created, running, stopping, stopped, LifecycleError,
  not_in_created_state, not_in_running_state,
}
use oci_kernel.Container.Store
use oci_kernel.Container.Store.{ContainerRecord}
use oci_kernel.Host.Getty.State.{Getty, println, println_all}
use oci_kernel.Host.Getty.Format.{pad_right}
use oci_kernel.Host.Getty.System.{status_of}

unfoldable pub list_rows : List ContainerRecord → List Text
unfolding pad_right status_of
list_rows [] = []
list_rows (r ∷ rs) =
    (pad_right 16 (to_decimal r.id)
      ++ (text "  " ++ (pad_right 19 r.image ++ (text "  " ++ status_of r.state))))
    ∷ list_rows rs

unfoldable pub list_lines : List ContainerRecord → List Text
unfolding list_rows
list_lines [] = text "No containers." ∷ []
list_lines (r ∷ rs) =
    text "ID                IMAGE                STATUS"
    ∷ text "────────────────  ───────────────────  ─────────"
    ∷ list_rows (r ∷ rs)

unfoldable pub container_list : Getty → Getty
unfolding println_all list_lines
container_list g = println_all g (list_lines (Store.all g.store))

-- The text of the error in kernel/src/container/runtime.rs.
unfoldable pub error_text : LifecycleError → Text
error_text not_in_created_state = text "cannot start: not in Created state"
error_text not_in_running_state = text "cannot stop: not in Running state"

unfoldable pub spec_of : Text → List PortMapping → List VolumeMount → ContainerSpec
spec_of image ports volumes = record (Spec.new image []) { ports = ports; volumes = volumes }

unfoldable pub forward_of : ℕ → PortMapping → ActivePortForward
forward_of id pm = record { container_id = id; host_port = pm.host; container_port = pm.container }

unfoldable pub hostfwd : PortMapping → Text
hostfwd pm = text ",hostfwd=tcp::" ++ (to_decimal pm.host ++ (text "-:" ++ to_decimal pm.container))

abbrev pub mapping_line : PortMapping → Text
mapping_line pm =
    text "  Port mapping: host:"
    ++ (to_decimal pm.host ++ (text " → container:" ++ to_decimal pm.container))

unfoldable pub add_forward : ℕ → PortMapping → Getty × Text → Getty × Text
unfolding println forward_of hostfwd
add_forward id pm (g, qemu_fwds) = (
  println (record g { forwards = push g.forwards (forward_of id pm) }) (mapping_line pm),
  qemu_fwds ++ hostfwd pm,
)

-- The loop over the port list, with the options that it collects.
unfoldable pub add_forwards : ℕ → List PortMapping → Getty × Text → Getty × Text
unfolding add_forward
add_forwards id [] state = state
add_forwards id (pm ∷ pms) state = add_forwards id pms (add_forward id pm state)

unfoldable pub access_lines : PortMapping → Text → List Text
access_lines first qemu_fwds =
    text "  Access:"
    ∷ (text "    QEMU only  : make qemu HOSTFWD=\"" ++ (qemu_fwds ++ text "\""))
    ∷ (text "                 curl http://localhost:" ++ to_decimal first.host)
    ∷ (text "    Real HW    : connect to <machine-ip>:" ++ to_decimal first.host)
    ∷ text "                 (no forwarding needed — direct NIC)"
    ∷ []

unfoldable pub forward_ports : ℕ → List PortMapping → Getty → Getty
unfolding add_forwards access_lines println_all
forward_ports id [] g = g
forward_ports id (pm ∷ pms) g =
    let (g', qemu_fwds) = add_forwards id (pm ∷ pms) (g, []) in
    println_all g' (access_lines pm qemu_fwds)

-- What follows a start that succeeded: the container is registered and announced, then its ports are.
unfoldable pub announced : Getty → Container → Text → Getty
unfolding println
announced g c image =
    println (record g { store = Store.register g.store c.id image running })
      (text "Container " ++ (to_decimal c.id ++ (text " started  image=" ++ image)))

unfoldable pub started : Getty → Container → Text → List PortMapping → Getty
unfolding forward_ports println announced
started g c image port_list =
    println (forward_ports c.id port_list (announced g c image))
      (text "  (M2: actual process needs image pull + overlayfs)")

unfoldable pub container_run : Getty → Text → List PortMapping → List VolumeMount → Getty
unfolding spec_of started error_text println
container_run g image ports volumes =
    let (c, counter) = Runtime.create (spec_of image ports volumes) g.next_id in
    let counted = record g { next_id = counter } in
    elim ((Runtime.start c).0) [
      | ok _ ↦ started counted c image ports
      | err e ↦ println counted (text "Error: " ++ error_text e)
    ]

-- `id.trim().parse::<u64>()`
unfoldable pub id_of : Text → Option ℕ
id_of s = parse_unsigned (2 ^ 64) (trim s)

abbrev pub not_a_number : Text
not_a_number = text "Error: container ID must be a number."

abbrev pub not_a_container : Text
not_a_container = text "Error: container not found."

unfoldable pub set_stopped : ContainerRecord → ContainerRecord
set_stopped r = record r { state = stopped }

unfoldable pub stop_container : Getty → ℕ → Getty
unfolding set_stopped println
stop_container g n = elim (Store.get g.store n) [
  | none ↦ println g not_a_container
  | some r ↦
      println (record g { store = Store.get_mut g.store n set_stopped })
        (text "Container " ++ (to_decimal n ++ text " stopped."))
]

unfoldable pub container_stop : Getty → Text → Getty
unfolding id_of stop_container println
container_stop g id = elim (id_of id) [
  | none ↦ println g not_a_number
  | some n ↦ stop_container g n
]

-- `inspect` and `logs` print lines about the record of an id.
unfoldable pub show_record : (ContainerRecord → List Text) → Getty → Text → Getty
unfolding id_of println println_all
show_record lines g id = elim (id_of id) [
  | none ↦ println g not_a_number
  | some n ↦ elim (Store.get g.store n) [
    | none ↦ println g not_a_container
    | some r ↦ println_all g (lines r)
  ]
]

unfoldable pub inspect_lines : ContainerRecord → List Text
unfolding status_of
inspect_lines r =
    (text "ID:     " ++ to_decimal r.id)
    ∷ (text "Image:  " ++ r.image)
    ∷ (text "Status: " ++ status_of r.state)
    ∷ []

unfoldable pub container_inspect : Getty → Text → Getty
unfolding show_record inspect_lines
container_inspect g id = show_record inspect_lines g id

-- Only a stopped container has the line of the event.
unfoldable pub event_lines : ContainerState → ℕ → List Text
event_lines stopped id = (text "[event] Container " ++ (to_decimal id ++ text " stopped.")) ∷ []
event_lines created id = []
event_lines running id = []
event_lines stopping id = []

unfoldable pub log_lines : ContainerRecord → List Text
unfolding event_lines
log_lines r =
    (text "[boot ] Container "
      ++ (to_decimal r.id ++ (text " (" ++ (r.image ++ text ") starting..."))))
    ∷ (text "[boot ] Container " ++ (to_decimal r.id ++ text " started  pid=1"))
    ∷ (event_lines r.state r.id ++ (text "(M2: live process stdout will stream here)" ∷ []))

unfoldable pub container_logs : Getty → Text → Getty
unfolding show_record log_lines
container_logs g id = show_record log_lines g id
