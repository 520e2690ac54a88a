-- ===== src/Boot/Session.antt =====
-- The login shell after the boot of kernel/src/main.rs.
use oci_kernel.Prelude.{ℕ, ◌≡◌, true, List, [], ◌∷◌, ◌++◌, push}
use oci_kernel.Prelude.Text.{Text, text}
use oci_kernel.Fs.Overlay.{OverlayMount}
use oci_kernel.Container.Spec.{ContainerSpec, PortMapping}
use oci_kernel.Container.Runtime
use oci_kernel.Container.Runtime.{Container, running}
use oci_kernel.Container.Store
use oci_kernel.Config.Builder.{KernelConfig}
use oci_kernel.Config.Parse.{from_yaml}
use oci_kernel.Host.Getty.State.{Getty, new, println}
use oci_kernel.Host.Getty.Containers.{forward_of}
use oci_kernel.Host.Getty.Session.{Mode, at_login}
use oci_kernel.Host.Getty.Session.Turns.{Reaches}
use oci_kernel.Host.Getty.Session.Sound.{is_registered, is_sound}
use oci_kernel.Host.Getty.Session.Stores.{is_registered-registered}
use oci_kernel.Host.Getty.Session.KeepsFiles.{println-IsSound, println_all-IsSound, next_id-IsSound}
use oci_kernel.Host.Getty.Session.KeepsContainers.{forwarded-IsSound, registered-IsSound}
use oci_kernel.Host.Getty.Session.Invariant.{new-IsSound, Reaches-IsSound}
use oci_kernel.Boot.{
  push_forward, push_forwards, registered, boot_container, boot_containers, boot_with, boot,
  unwrap_or_default, forward_line, config_line, ready_lines,
}

push_forwards-IsSound :
    (id : ℕ) (pms : List PortMapping) (g : Getty)
    → is_sound g ≡ true
    → is_registered g.store id ≡ true
    → is_sound (push_forwards id pms g) ≡ true
unfolding push_forwards push_forward println
push_forwards-IsSound id [] g h k = h
push_forwards-IsSound id (pm ∷ pms) g h k =
    let forwarded = record g { forwards = push g.forwards (forward_of id pm) } in
    push_forwards-IsSound id pms (println forwarded (forward_line pm))
      (println-IsSound forwarded (forward_line pm) (forwarded-IsSound g id pm h k)) k

booted-IsSound :
    (c : Container) (spec : ContainerSpec) (g : Getty)
    → is_sound g ≡ true
    → is_sound (registered c spec g) ≡ true
unfolding registered
booted-IsSound c spec g h =
    let line = text "  [OK] " ++ (spec.image ++ text " running (PID ns isolated)") in
    push_forwards-IsSound c.id spec.ports
      (record (println g line) {
        store = Store.register (println g line).store c.id spec.image running;
      })
      (registered-IsSound (println g line) c.id spec.image (println-IsSound g line h))
      (is_registered-registered (println g line).store c.id spec.image running)

boot_container-IsSound :
    (spec : ContainerSpec) (g : Getty) → is_sound g ≡ true → is_sound (boot_container spec g) ≡ true
unfolding boot_container Runtime.create Runtime.start
boot_container-IsSound spec g h =
    let shown = println g (text "  Starting container: " ++ (spec.image ++ text " ...")) in
    let made = Runtime.create spec shown.next_id in
    booted-IsSound (Runtime.start made.0).1 spec (record shown { next_id = made.1 })
      (next_id-IsSound shown made.1
        (println-IsSound g (text "  Starting container: " ++ (spec.image ++ text " ...")) h))

boot_containers-IsSound :
    (specs : List ContainerSpec) (g : Getty)
    → is_sound g ≡ true
    → is_sound (boot_containers specs g) ≡ true
unfolding boot_containers
boot_containers-IsSound [] g h = h
boot_containers-IsSound (spec ∷ specs) g h =
    boot_containers-IsSound specs (boot_container spec g) (boot_container-IsSound spec g h)

boot_with-IsSound :
    (config : KernelConfig) (g : Getty) → is_sound g ≡ true → is_sound (boot_with config g) ≡ true
unfolding boot_with
boot_with-IsSound config g h =
    let started = boot_containers config.containers (println g (config_line config)) in
    println_all-IsSound (println started (text "[OK] HTTP listener on port 80")) ready_lines (
      println-IsSound started (text "[OK] HTTP listener on port 80") (
        boot_containers-IsSound config.containers (println g (config_line config))
          (println-IsSound g (config_line config) h)))

-- Whatever configuration the kernel is booted with and whatever bytes arrive after that, the getty stays sound: its directory is a canonical path, every port rule leads to a registered container, and no image and no volume is listed twice.
pub Reaches-boot-IsSound :
    (lower_case : Text → Text) (yaml : Text) (read_pci : ℕ → ℕ) (m : OverlayMount) (input : List ℕ)
    (mode : Mode) (g : Getty) (rest : List ℕ)
    → Reaches read_pci at_login (boot lower_case yaml (new m)) input mode g rest
    → is_sound g ≡ true
Reaches-boot-IsSound lower_case yaml read_pci m input mode g rest r =
    let config = unwrap_or_default (from_yaml lower_case yaml) in
    let sound : is_sound (boot lower_case yaml (new m)) ≡ true =
      unfold boot in boot_with-IsSound config (new m) (new-IsSound m) in
    Reaches-IsSound read_pci sound r
