-- ===== src/Boot/Examples.antt =====
-- The boot of kernel/src/main.rs with its own configuration, and a login after it.
use oci_kernel.Prelude.Text
use oci_kernel.Prelude.{
  ℕ, ◌+◌, ◌*◌, ◌≡◌, refl, arith, true, ◌&&◌, leb, if◌then◌else◌, List, [], ◌∷◌, ok,
}
use oci_kernel.Prelude.Text.{Text, text, starts_with, text_eq, is_empty, trim}
use oci_kernel.Prelude.Utf8.{from_utf8_lossy}
use oci_kernel.Fs.Overlay
use oci_kernel.Container.Spec
use oci_kernel.Container.Spec.{ContainerSpec}
use oci_kernel.Config.Builder
use oci_kernel.Config.Builder.{KernelConfig}
use oci_kernel.Config.Line
use oci_kernel.Config.Parse
use oci_kernel.Config.Parse.{from_yaml, parse_lines, start}
use oci_kernel.Host.Getty.State.{Getty, new, print, println}
use oci_kernel.Host.Getty.Lines.{read_line, read_line_silent}
use oci_kernel.Host.Getty.Session.{
  at_login, in_shell, next, login_turn, turn, check_login, is_root, show_motd,
}
use oci_kernel.Host.Getty.Session.Sound.{is_sound}
use oci_kernel.Host.Getty.Session.Turns.{here, step}
use oci_kernel.Boot.{default_config_yaml, boot}
use oci_kernel.Boot.Booted.{Runs, boot-Runs}
use oci_kernel.Boot.Session.{Reaches-boot-IsSound}

-- Lower-casing of ASCII letters.
abbrev lower_case : Text → Text
lower_case [] = []
lower_case (c ∷ s) = (if leb b'A' c && leb c b'Z' then c + 32 else c) ∷ lower_case s

abbrev nginx : ContainerSpec
nginx = record (Spec.new (text "nginx:latest") []) {
  ports = record { host = 8080; container = 80 } ∷ [];
  restart = Spec.always;
  resources = record (Spec.default) { memory_bytes = 256 * 1024 * 1024; pids_max = 50 };
}

abbrev config : KernelConfig
config = record { containers = nginx ∷ [] }

default_config : from_yaml lower_case default_config_yaml ≡ ok config
unfolding from_yaml parse_lines start Parse.step Parse.section Parse.open_container Parse.body_line
    Parse.key_line Parse.item_line Parse.port_line Parse.resource_line Parse.flush_port
    Parse.flush_container Parse.add_port Parse.change_current Parse.set_container_port
    Parse.open_port Builder.build Builder.built Builder.new_builder Builder.unwrap_or
    Line.leading_spaces Line.value_after_colon Line.parse_u16 Line.parse_restart Line.parse_memory
    Line.scaled Line.parse_usize Text.lines Text.line_list Text.strip_cr Text.split Text.trim
    Text.trim_start Text.trim_end Text.is_whitespace Text.len Text.len_utf8 Text.text_eq
    Text.is_empty Text.starts_with Text.strip_suffix Text.after_first Text.parse_unsigned
    Text.parse_digits Spec.new Spec.default
default_config = refl

abbrev fresh : Getty
fresh = new (Overlay.new [])

boot-Runs_example : Runs (nginx ∷ []) (boot lower_case default_config_yaml fresh)
boot-Runs_example =
    boot-Runs lower_case default_config_yaml config (Overlay.new []) default_config (omega arith)

-- No PCI function answers.
abbrev no_pci : ℕ → ℕ
no_pci addr = 0xFFFFFFFF

abbrev booted : Getty
booted = boot lower_case default_config_yaml fresh

abbrev login_bytes : List ℕ
login_bytes = text "root\radmin\r"

-- The bytes of a line as they are shown one by one.
echoed : Getty → Text → Getty
echoed g [] = g
echoed g (c ∷ s) = echoed (print g (c ∷ [])) s

logged_in : Getty → Getty
logged_in g =
    let user =
      echoed (print (println g (text "OCI Kernel 0.1.0")) (text "login: ")) (text "root\n") in
    show_motd (print (print user (text "Password: ")) (10 ∷ []))

login_ok : (g : Getty) → turn no_pci at_login g login_bytes ≡ next in_shell (logged_in g) []
unfolding turn login_turn read_line read_line_silent from_utf8_lossy check_login is_root trim
    text_eq logged_in echoed print println
login_ok g = refl

Reaches-boot-IsSound_example : is_sound (logged_in booted) ≡ true
Reaches-boot-IsSound_example =
    Reaches-boot-IsSound lower_case default_config_yaml no_pci (Overlay.new []) login_bytes in_shell
      (logged_in booted) [] (step here (login_ok booted))
