-- ===== src/Host/Getty/Session/Invariant.antt =====
-- What stays true of the getty of kernel/src/host/getty.rs, whatever bytes arrive.
use oci_kernel.Prelude.{
  ℕ, ◌≡◌, refl, arith, true, inl, inr, Option, none, some, Option-cases, List, [], ◌∷◌, ◌++◌, push,
  pop, Result, ok, err,
}
use oci_kernel.Prelude.Text.{split, text_eq, Text, text, is_empty}
use oci_kernel.Prelude.Utf8.{from_utf8}
use oci_kernel.Prelude.Words.{lacks}
use oci_kernel.Fs.Overlay
use oci_kernel.Fs.Overlay.{FsError, not_found, permission_denied, already_exists}
use oci_kernel.Container.Store
use oci_kernel.Container.Store.{ContainerRecord}
use oci_kernel.Host.Shell
use oci_kernel.Host.Shell.{
  ShellCommand, ls, cd, pwd, cat, echo, touch, mkdir, rm, clear, uname, free, lsblk, df, ps,
  container_run, container_stop, container_logs, container_inspect, container_list, image_pull,
  image_list, image_remove, volume_create, volume_remove, kernel_info, help,
}
use oci_kernel.Host.Getty.State.{Getty, new, print, println}
use oci_kernel.Host.Getty.Path.{resolve_path}
use oci_kernel.Host.Getty.Path.Segments.{are_names, is_name, is_canonical}
use oci_kernel.Host.Getty.Lines.{erase_echo, erase, rubout, read_line, read_line_silent}
use oci_kernel.Host.Getty.Lines.Laws.{Reading-cases, getty_of}
use oci_kernel.Host.Getty.Files
use oci_kernel.Host.Getty.Files.{show_entries, show_text, show_file, rm_message}
use oci_kernel.Host.Getty.System
use oci_kernel.Host.Getty.System.{
  lsblk_heading, lsblk_end, show_function, scan_functions, scan_devices,
}
use oci_kernel.Host.Getty.Containers
use oci_kernel.Host.Getty.Containers.{
  forward_of, add_forwards, forward_ports, started, stop_container, set_stopped, show_record, id_of,
}
use oci_kernel.Host.Getty.Images
use oci_kernel.Host.Getty.Images.{help_lines}
use oci_kernel.Host.Getty.Session.{
  Mode, in_shell, at_login, Turn, next, blocked, execute, run_line, check_login, login_turn,
  shell_turn, turn, show_motd, show_motd_file, show_utf8, run_parsed,
}
use oci_kernel.Host.Getty.Session.Login.{
  asked, asked_password, login_turn_waits, login_turn_waits_again, login_turn-lines,
}
use oci_kernel.Host.Getty.Session.Turns.{Reaches, here, step}
use oci_kernel.Host.Getty.Session.Sound.{
  all_registered, distinct_images, distinct_volumes, is_sound,
}
use oci_kernel.Host.Getty.Session.KeepsFiles.{
  println-IsSound, print-IsSound, println_all-IsSound, ls-IsSound, cd-IsSound, show_file-IsSound,
  echo-IsSound, touch-IsSound, mkdir-IsSound, rm-IsSound,
}
use oci_kernel.Host.Getty.Session.KeepsSystem.{uname-IsSound, lsblk-IsSound, df-IsSound, ps-IsSound}
use oci_kernel.Host.Getty.Session.KeepsContainers.{
  container_run-IsSound, container_stop-IsSound, show_record-IsSound, image_pull-IsSound,
  image_remove-IsSound, volume_create-IsSound, volume_remove-IsSound,
}

-- Every command keeps the getty sound: the directory stays a canonical path, every port rule leads to a registered container, and no image and no volume is listed twice.
pub execute-IsSound :
    (read_pci : ℕ → ℕ) (g : Getty) (cmd : ShellCommand)
    → is_sound g ≡ true
    → is_sound (execute read_pci g cmd) ≡ true
unfolding execute
execute-IsSound read_pci g (ls path) h = ls-IsSound g path h
execute-IsSound read_pci g (cd path) h = cd-IsSound g path h
execute-IsSound read_pci g pwd h = unfold Files.pwd in println-IsSound g g.cwd h
execute-IsSound read_pci g (cat path) h =
    unfold Files.cat in
    show_file-IsSound g path (Overlay.read g.root_fs (resolve_path g.cwd path)) h
execute-IsSound read_pci g (echo s file) h = echo-IsSound g s file h
execute-IsSound read_pci g (touch path) h = touch-IsSound g path h
execute-IsSound read_pci g (mkdir path) h = mkdir-IsSound g path h
execute-IsSound read_pci g (rm path) h = rm-IsSound g path h
execute-IsSound read_pci g clear h =
    unfold System.clear in print-IsSound g (27 ∷ (text "[2J" ++ (27 ∷ text "[H"))) h
execute-IsSound read_pci g (uname all) h = uname-IsSound g all h
execute-IsSound read_pci g free h = unfold System.free in unfold println in unfold is_sound in h
execute-IsSound read_pci g lsblk h = lsblk-IsSound read_pci g h
execute-IsSound read_pci g df h = df-IsSound g h
execute-IsSound read_pci g ps h = ps-IsSound g h
execute-IsSound read_pci g (container_run image pms vs) h = container_run-IsSound g image pms vs h
execute-IsSound read_pci g (container_stop id) h = container_stop-IsSound g id h
execute-IsSound read_pci g (container_logs id follow) h =
    unfold Containers.container_logs in show_record-IsSound Containers.log_lines g id h
execute-IsSound read_pci g (container_inspect id) h =
    unfold Containers.container_inspect in show_record-IsSound Containers.inspect_lines g id h
execute-IsSound read_pci g container_list h =
    unfold Containers.container_list in
    println_all-IsSound g (Containers.list_lines (Store.all g.store)) h
execute-IsSound read_pci g (image_pull name tag) h = image_pull-IsSound g name tag h
execute-IsSound read_pci g image_list h =
    unfold Images.image_list in println_all-IsSound g (Images.image_lines g.images) h
execute-IsSound read_pci g (image_remove name tag) h = image_remove-IsSound g name tag h
execute-IsSound read_pci g (volume_create name) h = volume_create-IsSound g name h
execute-IsSound read_pci g (volume_remove name) h = volume_remove-IsSound g name h
execute-IsSound read_pci g kernel_info h =
    unfold Images.kernel_info in
    println_all-IsSound g
      (text "OCI Kernel 0.1.0  arch=x86_64  build=no_std"
        ∷ text "Heap: 8MB at 0xFFFF_C000_0000_0000"
        ∷ text "Net:  smoltcp 0.11 / virtio-net / 10.0.2.15/24"
        ∷ text "      QEMU SLIRP NAT — gateway 10.0.2.2"
        ∷ Images.port_lines g.forwards)
      h
execute-IsSound read_pci g help h = unfold Images.help in println_all-IsSound g help_lines h

erase_echo-IsSound :
    (g : Getty) (buf : List ℕ) → is_sound g ≡ true → is_sound (erase_echo g buf) ≡ true
unfolding erase_echo
erase_echo-IsSound g buf h = elim (Option-cases (pop buf)) [
  | inl e ↦ ground arith
  | inr ((c, rest), e) ↦ ground (arith, print-IsSound g rubout)
]

read_line-IsSound :
    (g : Getty) (buf input : List ℕ)
    → is_sound g ≡ true
    → is_sound (getty_of (read_line g buf input)) ≡ true
unfolding read_line getty_of
read_line-IsSound g buf [] h = h
read_line-IsSound g buf (c ∷ input) h = ground (
  arith,
  print-IsSound g (10 ∷ []),
  print-IsSound g (c ∷ []),
  erase_echo-IsSound g buf,
  read_line-IsSound (erase_echo g buf) (erase buf) input,
  read_line-IsSound (print g (c ∷ [])) (push buf c) input,
  read_line-IsSound g buf input,
)

read_line_silent-IsSound :
    (g : Getty) (buf input : List ℕ)
    → is_sound g ≡ true
    → is_sound (getty_of (read_line_silent g buf input)) ≡ true
unfolding read_line_silent getty_of
read_line_silent-IsSound g buf [] h = h
read_line_silent-IsSound g buf (c ∷ input) h = ground (
  arith,
  print-IsSound g (10 ∷ []),
  read_line_silent-IsSound g (erase buf) input,
  read_line_silent-IsSound g (push buf c) input,
  read_line_silent-IsSound g buf input,
)

-- The getty that a turn leaves.
unfoldable pub left_by : Turn → Getty
left_by (blocked g) = g
left_by (next mode g rest) = g

show_utf8-IsSound :
    (g : Getty) (t : Option Text) → is_sound g ≡ true → is_sound (show_utf8 g t) ≡ true
unfolding show_utf8
show_utf8-IsSound g none h = h
show_utf8-IsSound g (some s) h = print-IsSound g s h

show_motd_file-IsSound :
    (g : Getty) (r : Result (List ℕ) FsError)
    → is_sound g ≡ true
    → is_sound (show_motd_file g r) ≡ true
unfolding show_motd_file
show_motd_file-IsSound g (err e) h = h
show_motd_file-IsSound g (ok bytes) h = show_utf8-IsSound g (from_utf8 bytes) h

check_login-IsSound :
    (user pass : Text) (g : Getty) (input : List ℕ)
    → is_sound g ≡ true
    → is_sound (left_by (check_login user pass g input)) ≡ true
unfolding check_login left_by show_motd
check_login-IsSound user pass g input h = ground (
  arith,
  show_motd_file-IsSound g (Overlay.read g.root_fs (text "/etc/motd")),
  println-IsSound g (text "Login incorrect.\n"),
)

login_turn-IsSound :
    (g : Getty) (input : List ℕ)
    → is_sound g ≡ true
    → is_sound (left_by (login_turn g input)) ≡ true
unfolding left_by getty_of
login_turn-IsSound g input h =
    let banner = println-IsSound g (text "OCI Kernel 0.1.0") h in
    let prompt = print-IsSound (println g (text "OCI Kernel 0.1.0")) (text "login: ") banner in
    let read = read_line-IsSound (asked g) [] input prompt in
    elim (Reading-cases (read_line (asked g) [] input)) [
      | inl (w, e) ↦ ground (arith, login_turn_waits g input w e)
      | inr (user, between, named, e) ↦
          let second = print-IsSound named (text "Password: ") (ground arith) in
          let read_again = read_line_silent-IsSound (asked_password named) [] between second in
          elim (Reading-cases (read_line_silent (asked_password named) [] between)) [
            | inl (w, k) ↦ ground (arith, login_turn_waits_again g input user between named w e k)
            | inr (pass, rest, confirmed, k) ↦ ground (
              arith,
              login_turn-lines g input user between named pass rest confirmed e k,
              check_login-IsSound user pass confirmed rest,
            )
          ]
    ]

module _ (read_pci : ℕ → ℕ) where
  run_parsed-IsSound :
      (g : Getty) (r : Shell.Parsed) → is_sound g ≡ true → is_sound (run_parsed read_pci g r) ≡ true
  unfolding run_parsed
  run_parsed-IsSound g (ok cmd) h = execute-IsSound read_pci g cmd h
  run_parsed-IsSound g (err e) h = unfold println in unfold is_sound in h

  run_line-IsSound :
      (g : Getty) (s : Text) → is_sound g ≡ true → is_sound (run_line read_pci g s) ≡ true
  unfolding run_line
  run_line-IsSound g s h = ground (arith, run_parsed-IsSound g (Shell.parse s))

  shell_turn-IsSound :
      (g : Getty) (input : List ℕ)
      → is_sound g ≡ true
      → is_sound (left_by (shell_turn read_pci g input)) ≡ true
  unfolding shell_turn left_by getty_of
  shell_turn-IsSound g input h =
      let prompt = print g (g.cwd ++ text "# ") in
      let read = read_line-IsSound prompt [] input (print-IsSound g (g.cwd ++ text "# ") h) in
      elim (Reading-cases (read_line prompt [] input)) [
        | inl (w, e) ↦ ground arith
        | inr (s, rest, w, e) ↦ ground (arith, run_line-IsSound w s)
      ]

  turn-IsSound :
      (mode : Mode) (g : Getty) (input : List ℕ)
      → is_sound g ≡ true
      → is_sound (left_by (turn read_pci mode g input)) ≡ true
  unfolding turn
  turn-IsSound at_login g input h = login_turn-IsSound g input h
  turn-IsSound in_shell g input h = shell_turn-IsSound g input h

  -- The getty is sound wherever the loops come to from a sound one, whatever bytes arrive.
  pub Reaches-IsSound :
      {mode : Mode} {g : Getty} {input : List ℕ} {mode' : Mode} {g' : Getty} {input' : List ℕ}
      → is_sound g ≡ true
      → Reaches read_pci mode g input mode' g' input'
      → is_sound g' ≡ true
  unfolding left_by
  Reaches-IsSound h here = h
  Reaches-IsSound h (step {mode'} {mode''} {g'} {g''} {input'} {input''} r e) =
      ground (arith, turn-IsSound mode' g' input' (Reaches-IsSound h r))

-- The getty is sound at the start, whatever file system it is given.
pub new-IsSound : (m : Overlay.OverlayMount) → is_sound (new m) ≡ true
unfolding new is_sound is_canonical are_names is_name is_empty lacks split text_eq all_registered
    distinct_images distinct_volumes
new-IsSound m = refl

-- Whatever bytes arrive after the start, the getty stays sound: its directory is a canonical path, every port rule leads to a registered container, and no image and no volume is listed twice.
pub Reaches-new-IsSound :
    (read_pci : ℕ → ℕ) (m : Overlay.OverlayMount) (input : List ℕ) (mode : Mode) (g : Getty)
    (rest : List ℕ)
    → Reaches read_pci at_login (new m) input mode g rest
    → is_sound g ≡ true
Reaches-new-IsSound read_pci m input mode g rest r = Reaches-IsSound read_pci (new-IsSound m) r
