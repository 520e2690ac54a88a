-- ===== src/Host/Getty/Session/KeepsSystem.antt =====
-- The system commands of kernel/src/host/getty.rs keep the getty sound.
use oci_kernel.Prelude.{ℕ, zero, suc, ◌+◌, ◌≡◌, arith, Bool, true, false, ◌∷◌}
use oci_kernel.Prelude.Text.{text}
use oci_kernel.Container.Store
use oci_kernel.Container.Store.{ContainerRecord}
use oci_kernel.Host.Getty.State.{Getty, println, println_all}
use oci_kernel.Host.Getty.System
use oci_kernel.Host.Getty.System.{
  lsblk_heading, lsblk_end, show_function, scan_functions, scan_devices,
}
use oci_kernel.Host.Getty.Session.Sound.{is_sound}
use oci_kernel.Host.Getty.Session.KeepsFiles.{println_all-IsSound}

pub uname-IsSound :
    (g : Getty) (all : Bool) → is_sound g ≡ true → is_sound (System.uname g all) ≡ true
unfolding System.uname println is_sound
uname-IsSound g all h = ground arith

module _ (read_pci : ℕ → ℕ) where
  show_function-IsSound :
      (dev func : ℕ) (g : Getty) (found : Bool)
      → is_sound g ≡ true
      → is_sound (show_function read_pci dev func (g, found)).0 ≡ true
  unfolding show_function println is_sound
  show_function-IsSound dev func g found h = ground arith

  scan_functions-IsSound :
      (left dev func : ℕ) (state : Getty × Bool)
      → is_sound state.0 ≡ true
      → is_sound (scan_functions read_pci left dev func state).0 ≡ true
  unfolding scan_functions
  scan_functions-IsSound zero dev func state h = h
  scan_functions-IsSound (suc left) dev func state h =
      let shown = show_function-IsSound dev func state.0 state.1 h in
      ground (
        arith,
        scan_functions-IsSound left dev (func + 1) state,
        scan_functions-IsSound left dev (func + 1) (show_function read_pci dev func state),
      )

  scan_devices-IsSound :
      (left dev : ℕ) (state : Getty × Bool)
      → is_sound state.0 ≡ true
      → is_sound (scan_devices read_pci left dev state).0 ≡ true
  unfolding scan_devices
  scan_devices-IsSound zero dev state h = h
  scan_devices-IsSound (suc left) dev state h =
      scan_devices-IsSound left (dev + 1) (scan_functions read_pci 8 dev 0 state)
        (scan_functions-IsSound 8 dev 0 state h)

  lsblk_end-IsSound :
      (state : Getty × Bool) → is_sound state.0 ≡ true → is_sound (lsblk_end state) ≡ true
  unfolding lsblk_end println is_sound
  lsblk_end-IsSound (g, true) h = h
  lsblk_end-IsSound (g, false) h = h

  pub lsblk-IsSound : (g : Getty) → is_sound g ≡ true → is_sound (System.lsblk read_pci g) ≡ true
  unfolding System.lsblk
  lsblk-IsSound g h =
      lsblk_end-IsSound (scan_devices read_pci 32 0 (println_all g lsblk_heading, false)) (
        scan_devices-IsSound 32 0 (println_all g lsblk_heading, false)
          (println_all-IsSound g lsblk_heading h))

pub df-IsSound : (g : Getty) → is_sound g ≡ true → is_sound (System.df g) ≡ true
unfolding System.df println println_all is_sound
df-IsSound g h = h

pub ps-IsSound : (g : Getty) → is_sound g ≡ true → is_sound (System.ps g) ≡ true
unfolding System.ps
ps-IsSound g h =
    println_all-IsSound g
      (text "PID   IMAGE                STATUS"
        ∷ text "────  ───────────────────  ─────────"
        ∷ System.or_line (System.ps_rows 0 (Store.all g.store)) (text "(no processes)"))
      h
