-- ===== src/Host/Getty/Session/Examples.antt =====
-- Sessions of kernel/src/host/getty.rs on concrete bytes.
use oci_kernel.Prelude.{ℕ, ◌≡◌, refl, true, List, [], ◌∷◌, ◌++◌, arith}
use oci_kernel.Prelude.Text.{text, text_eq, trim, is_empty, is_whitespace}
use oci_kernel.Prelude.Words.{join, is_solid}
use oci_kernel.Prelude.Utf8.{as_bytes, from_utf8_lossy}
use oci_kernel.Fs.Overlay
use oci_kernel.Host.Shell.{mkdir}
use oci_kernel.Host.Shell.Print
use oci_kernel.Host.Shell.Print.{is_printable, words}
use oci_kernel.Host.Getty.State.{Getty, new, print, println}
use oci_kernel.Host.Getty.Lines.{read_line, read_line_silent}
use oci_kernel.Host.Getty.Lines.Laws.{is_typable}
use oci_kernel.Host.Getty.Session.{
  at_login, in_shell, next, execute, login_turn, shell_turn, turn, run, check_login, is_root,
  show_motd,
}
use oci_kernel.Host.Getty.Session.Login.{Credentials, login_turn-shell}
use oci_kernel.Host.Getty.Session.Turns.{is_blocked, run_blocked, Reaches, here, step}
use oci_kernel.Host.Getty.Session.Typed.{shell_turn-line, prompted}

abbrev fresh : Getty
fresh = new (Overlay.new [])

-- No PCI function answers.
abbrev no_pci : ℕ → ℕ
no_pci addr = 0xFFFFFFFF

abbrev login_bytes : List ℕ
login_bytes = text "root\radmin\r"

abbrev after_login : Getty
after_login =
    show_motd (record fresh { screen = text "OCI Kernel 0.1.0\nlogin: root\nPassword: \n" })

login_ok : login_turn fresh login_bytes ≡ next in_shell after_login []
unfolding login_turn new print println read_line read_line_silent from_utf8_lossy check_login
    is_root trim text_eq
login_ok = refl

login_turn-shell_example : Credentials fresh login_bytes []
login_turn-shell_example = login_turn-shell fresh login_bytes after_login [] login_ok

shell_turn-line_example :
    shell_turn no_pci fresh (as_bytes (Print.line (mkdir (text "data"))) ++ (13 ∷ []))
    ≡ next in_shell
        (execute no_pci
          (prompted no_pci fresh (Print.line (mkdir (text "data"))))
          (mkdir (text "data")))
        []
unfolding is_printable is_empty is_solid is_whitespace is_typable Print.line words join
shell_turn-line_example = shell_turn-line no_pci fresh (mkdir (text "data")) [] refl refl

run_blocked_example : is_blocked (run no_pci 13 at_login fresh login_bytes) ≡ true
run_blocked_example = run_blocked no_pci 13 at_login fresh login_bytes (omega arith)

logged_in : Reaches no_pci at_login fresh login_bytes in_shell after_login []
unfolding turn
logged_in = step here login_ok
