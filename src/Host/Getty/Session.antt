-- ===== src/Host/Getty/Session.antt =====
-- `execute`, `run_shell` and `run` of kernel/src/host/getty.rs. Neither loop ends: a turn is one round
-- of the loop that the getty is in, and takes its bytes from those that arrive on the serial line.
pub mod Typed
pub mod Login
pub mod Turns
pub mod Sound
pub mod Stores
pub mod KeepsFiles
pub mod KeepsSystem
pub mod KeepsContainers
pub mod Invariant
pub mod Examples
use oci_kernel.Prelude.{
  ℕ, zero, suc, Bool, true, false, ◌&&◌, if◌then◌else◌, Option, none, some, List, [], ◌∷◌, ◌++◌,
  Result, ok, err,
}
use oci_kernel.Prelude.Text.{Text, text, text_eq, trim, is_empty}
use oci_kernel.Prelude.Utf8.{from_utf8}
use oci_kernel.Fs.Overlay
use oci_kernel.Host.Shell
use oci_kernel.Host.Shell.{
  ShellCommand, ls, cd, pwd, cat, echo, touch, mkdir, rm, clear, uname, free, lsblk, df, ps,
  container_run, container_stop, container_logs, container_inspect, container_list, image_pull,
  image_list, image_remove, volume_create, volume_remove, kernel_info, help,
}
use oci_kernel.Host.Getty.State.{Getty, print, println}
use oci_kernel.Host.Getty.Lines.{Reading, waiting, line, read_line, read_line_silent}
use oci_kernel.Host.Getty.Files
use oci_kernel.Host.Getty.System
use oci_kernel.Host.Getty.Containers
use oci_kernel.Host.Getty.Images

unfoldable pub execute : (ℕ → ℕ) → Getty → ShellCommand → Getty
execute read_pci g (ls path) = Files.ls g path
execute read_pci g (cd path) = Files.cd g path
execute read_pci g pwd = Files.pwd g
execute read_pci g (cat path) = Files.cat g path
execute read_pci g (echo s file) = Files.echo g s file
execute read_pci g (touch path) = Files.touch g path
execute read_pci g (mkdir path) = Files.mkdir g path
execute read_pci g (rm path) = Files.rm g path
execute read_pci g clear = System.clear g
execute read_pci g (uname all) = System.uname g all
execute read_pci g free = System.free g
execute read_pci g lsblk = System.lsblk read_pci g
execute read_pci g df = System.df g
execute read_pci g ps = System.ps g
execute read_pci g (container_run image ports volumes) =
    Containers.container_run g image ports volumes
execute read_pci g (container_stop id) = Containers.container_stop g id
execute read_pci g (container_logs id follow) = Containers.container_logs g id
execute read_pci g (container_inspect id) = Containers.container_inspect g id
execute read_pci g container_list = Containers.container_list g
execute read_pci g (image_pull name tag) = Images.image_pull g name tag
execute read_pci g image_list = Images.image_list g
execute read_pci g (image_remove name tag) = Images.image_remove g name tag
execute read_pci g (volume_create name) = Images.volume_create g name
execute read_pci g (volume_remove name) = Images.volume_remove g name
execute read_pci g kernel_info = Images.kernel_info g
execute read_pci g help = Images.help g

-- The loop that the getty is in: that of `run`, or that of `run_shell`, which does not return.
pub data Mode : Type 0 where
  at_login in_shell : Mode

pub data Turn : Type 0 where
  blocked : Getty → Turn
  next : Mode → Getty → List ℕ → Turn

-- Only a file that is there and is text is shown.
unfoldable pub show_utf8 : Getty → Option Text → Getty
show_utf8 g none = g
show_utf8 g (some s) = print g s

unfoldable pub show_motd_file : Getty → Result (List ℕ) Overlay.FsError → Getty
show_motd_file g (err e) = g
show_motd_file g (ok bytes) = show_utf8 g (from_utf8 bytes)

unfoldable pub show_motd : Getty → Getty
show_motd g = show_motd_file g (Overlay.read g.root_fs (text "/etc/motd"))

unfoldable pub is_root : Text → Text → Bool
is_root user pass = text_eq (trim user) (text "root") && text_eq (trim pass) (text "admin")

unfoldable pub check_login : Text → Text → Getty → List ℕ → Turn
check_login user pass g input =
    if is_root user pass
    then next in_shell (show_motd g) input
    else next at_login (println g (text "Login incorrect.\n")) input

unfoldable pub login_turn : Getty → List ℕ → Turn
login_turn g input =
    elim (read_line (print (println g (text "OCI Kernel 0.1.0")) (text "login: ")) [] input) [
      | waiting g' ↦ blocked g'
      | line user rest g' ↦ elim (read_line_silent (print g' (text "Password: ")) [] rest) [
        | waiting g'' ↦ blocked g''
        | line pass rest' g'' ↦ check_login user pass g'' rest'
      ]
    ]

module _ (read_pci : ℕ → ℕ) where
  unfoldable pub run_parsed : Getty → Shell.Parsed → Getty
  run_parsed g (ok cmd) = execute read_pci g cmd
  run_parsed g (err e) = println g (text "command not found. Type 'help' for available commands.")

  unfoldable pub run_line : Getty → Text → Getty
  run_line g s = if is_empty (trim s) then g else run_parsed g (Shell.parse s)

  unfoldable pub shell_turn : Getty → List ℕ → Turn
  shell_turn g input = elim (read_line (print g (g.cwd ++ text "# ")) [] input) [
    | waiting g' ↦ blocked g'
    | line s rest g' ↦ next in_shell (run_line g' s) rest
  ]

  unfoldable pub turn : Mode → Getty → List ℕ → Turn
  turn at_login g input = login_turn g input
  turn in_shell g input = shell_turn g input

  -- The turns that a number of rounds makes, up to one that waits.
  unfoldable pub run : ℕ → Mode → Getty → List ℕ → Turn
  run zero mode g input = next mode g input
  run (suc rounds) mode g input = elim (turn mode g input) [
    | blocked g' ↦ blocked g'
    | next mode' g' rest ↦ run rounds mode' g' rest
  ]
