-- ===== src/Boot/Booted.antt =====
-- What kernel/src/main.rs makes of the containers that the boot configuration declares.
use mathlib.Core.Path.{subst}
use oci_kernel.Prelude.{
  ℕ, ◌+◌, ◌-◌, ◌^◌, ◌<◌, ◌≡◌, refl, sym, ap, ◌∙◌, arith, List, [], ◌∷◌, length, ok,
}
use oci_kernel.Prelude.Text.{Text, text}
use oci_kernel.Prelude.BTreeMap
use oci_kernel.Prelude.BTreeMap.{BTreeMap}
use oci_kernel.Prelude.Order.{nat_key}
use oci_kernel.Container.Spec.{ContainerSpec}
use oci_kernel.Container.Store
use oci_kernel.Container.Store.{
  ContainerRecord, ContainerStore, all, running_count, count_running, is_running,
}
use oci_kernel.Config.Builder.{KernelConfig}
use oci_kernel.Config.Parse.{from_yaml}
use oci_kernel.Fs.Overlay.{OverlayMount}
use oci_kernel.Host.Getty.State.{Getty, new, println, println_all}
use oci_kernel.Boot.{boot_containers, boot, boot_with, config_line, ready_lines, unwrap_or_default}
use oci_kernel.Boot.Declared.{declared, declared_forwards, is_below}
use oci_kernel.Boot.Holds.{Holds, boot_containers-Holds}

-- Every declared container is running.
count_running-declared :
    (id : ℕ) (specs : List ContainerSpec) → count_running (declared id specs) ≡ length specs
unfolding count_running declared is_running
count_running-declared id [] = refl
count_running-declared id (spec ∷ specs) = omega (arith, count_running-declared (id + 1) specs)

println_all-keeps :
    (ss : List Text) (g : Getty)
    → ((println_all g ss).store ≡ g.store)
      × ((println_all g ss).forwards ≡ g.forwards)
      × ((println_all g ss).next_id ≡ g.next_id)
unfolding println_all println
println_all-keeps [] g = (refl, refl, refl)
println_all-keeps (s ∷ ss) g = println_all-keeps ss (println g s)

-- What the getty `g` holds once the containers `specs` run.
pub record Runs (specs : List ContainerSpec) (g : Getty) : Type 0 where
  pub listed : all g.store ≡ declared 1 specs
  pub running : running_count g.store ≡ length specs
  pub forwarded : g.forwards ≡ declared_forwards 1 specs
  pub next_number : g.next_id ≡ 1 + length specs

boot_with-Runs :
    (config : KernelConfig) (root_fs : OverlayMount)
    → length config.containers < 2 ^ 64 - 1
    → Runs config.containers (boot_with config (new root_fs))
boot_with-Runs config root_fs k =
    let g = println (new root_fs) (config_line config) in
    let booted = boot_containers config.containers g in
    let fresh : Holds g [] [] 1 =
      unfold new in
      unfold println in
      unfold Store.new in
      unfold all in
      unfold BTreeMap.values in
      unfold is_below in record { stored = refl; forwarded = refl; counted = refl; below = refl } in
    let held = boot_containers-Holds config.containers g [] [] 1 (omega arith) fresh in
    let (s, f, n) = println_all-keeps (text "[OK] HTTP listener on port 80" ∷ ready_lines) booted in
    let listed : all (boot_with config (new root_fs)).store ≡ declared 1 config.containers =
      unfold boot_with in ap all s ∙ held.stored in
    let values_listed : BTreeMap.values (boot_with config (new root_fs)).store.entries
        ≡ declared 1 config.containers =
      unfold all in listed in
    record {
      listed = listed;
      running =
          unfold running_count in
          ap count_running values_listed ∙ count_running-declared 1 config.containers;
      forwarded = unfold boot_with in f ∙ held.forwarded;
      next_number = unfold boot_with in n ∙ held.counted;
    }

-- If the configuration is read as one with fewer than 2 ^ 64 - 1 containers, then after the boot the store lists exactly its containers in their order, numbered from 1, all of them running, the port forwards are theirs in that order, and the next container gets the number after theirs.
pub boot-Runs :
    (lower_case : Text → Text) (yaml : Text) (config : KernelConfig) (root_fs : OverlayMount)
    → from_yaml lower_case yaml ≡ ok config
    → length config.containers < 2 ^ 64 - 1
    → Runs config.containers (boot lower_case yaml (new root_fs))
unfolding boot unwrap_or_default
boot-Runs lower_case yaml config root_fs h k =
    subst (λ r. Runs config.containers (boot_with (unwrap_or_default r) (new root_fs))) (sym h)
      (boot_with-Runs config root_fs k)
