-- ===== src/Boot.antt =====
-- The part of `kernel_main` in kernel/src/main.rs that follows the set-up of the hardware: the boot
-- configuration is read, its containers are started and their ports forwarded. `Getty` holds the
-- statics that this works on, and the text on the serial line.
pub mod Declared
pub mod Holds
pub mod Booted
pub mod Session
pub mod Examples
use oci_kernel.Prelude.{ℕ, List, [], ◌∷◌, ◌++◌, push, length, Result, ok, err}
use oci_kernel.Prelude.Text.{Text, text}
use oci_kernel.Prelude.Decimal.{to_decimal}
use oci_kernel.Container.Spec.{ContainerSpec, PortMapping, ActivePortForward}
use oci_kernel.Container.Runtime
use oci_kernel.Container.Runtime.{Container, LifecycleError, running}
use oci_kernel.Container.Store
use oci_kernel.Config.Builder.{KernelConfig, ConfigError}
use oci_kernel.Config.Parse.{from_yaml}
use oci_kernel.Host.Getty.State.{Getty, println, println_all}
use oci_kernel.Host.Getty.Containers.{error_text, forward_of}

abbrev pub default_config_yaml : Text
default_config_yaml =
    text
      "containers:\n  - image: nginx:latest\n    ports:\n      - host: 8080\n        container: 80\n    restart: always\n    resources:\n      memory: 256mb\n      pids_max: 50\n"

unfoldable pub unwrap_or_default : Result KernelConfig ConfigError → KernelConfig
unwrap_or_default (ok config) = config
unwrap_or_default (err e) = record { containers = [] }

abbrev pub forward_line : PortMapping → Text
forward_line pm =
    text "  [OK] Port forward: host:"
    ++ (to_decimal pm.host ++ (text " -> container:" ++ to_decimal pm.container))

unfoldable pub push_forward : ℕ → PortMapping → Getty → Getty
unfolding println forward_of
push_forward id pm g =
    println (record g { forwards = push g.forwards (forward_of id pm) }) (forward_line pm)

-- `for pm in &port_list`
unfoldable pub push_forwards : ℕ → List PortMapping → Getty → Getty
unfolding push_forward
push_forwards id [] g = g
push_forwards id (pm ∷ pms) g = push_forwards id pms (push_forward id pm g)

-- The container `c` has started: it is registered, and its ports are forwarded.
unfoldable pub registered : Container → ContainerSpec → Getty → Getty
unfolding println push_forwards
registered c spec g =
    let shown = println g (text "  [OK] " ++ (spec.image ++ text " running (PID ns isolated)")) in
    push_forwards c.id spec.ports
      (record shown { store = Store.register shown.store c.id spec.image running })

unfoldable pub boot_container : ContainerSpec → Getty → Getty
unfolding println registered error_text
boot_container spec g =
    let shown = println g (text "  Starting container: " ++ (spec.image ++ text " ...")) in
    let (c, counter) = Runtime.create spec shown.next_id in
    let counted = record shown { next_id = counter } in
    elim ((Runtime.start c).0) [
      | ok _ ↦ registered (Runtime.start c).1 spec counted
      | err e ↦ println counted (text "  [ERR] " ++ (spec.image ++ (text ": " ++ error_text e)))
    ]

-- `for spec in boot_cfg.containers`
unfoldable pub boot_containers : List ContainerSpec → Getty → Getty
unfolding boot_container
boot_containers [] g = g
boot_containers (spec ∷ specs) g = boot_containers specs (boot_container spec g)

abbrev pub config_line : KernelConfig → Text
config_line config =
    text "[OK] Boot config ("
    ++ (to_decimal (length config.containers) ++ text " container(s) declared)")

abbrev pub ready_lines : List Text
ready_lines =
    text "OCI Kernel ready.  Type 'help' on the serial console."
    ∷ text "HTTP: curl http://localhost:8080  (QEMU) or <machine-ip>:8080 (real HW)"
    ∷ []

-- From the configuration to the getty; the listener of the network says that it is there.
unfoldable pub boot_with : KernelConfig → Getty → Getty
unfolding println println_all boot_containers
boot_with config g =
    let started = boot_containers config.containers (println g (config_line config)) in
    println_all (println started (text "[OK] HTTP listener on port 80")) ready_lines

unfoldable pub boot : (Text → Text) → Text → Getty → Getty
unfolding unwrap_or_default boot_with
boot lower_case yaml g = boot_with (unwrap_or_default (from_yaml lower_case yaml)) g
