-- ===== src/Host/Getty/Session/Typed.antt =====
-- A command that is typed at the prompt of kernel/src/host/getty.rs.
use oci_kernel.Prelude.{ℕ, ◌≡◌, refl, ap, ◌∙◌, arith, true, false, List, [], ◌∷◌, ◌++◌, ok}
use oci_kernel.Prelude.Text.{Text, text, trim, is_empty, split_whitespace}
use oci_kernel.Prelude.Utf8.{as_bytes}
use oci_kernel.Host.Shell
use oci_kernel.Host.Shell.{ShellCommand, parse_words}
use oci_kernel.Host.Shell.Print
use oci_kernel.Host.Shell.Print.{is_printable}
use oci_kernel.Host.Shell.RoundTrip.{parse-line}
use oci_kernel.Host.Getty.State.{Getty, print}
use oci_kernel.Host.Getty.Lines.Laws.{is_typable, read_line-as_bytes}
use oci_kernel.Host.Getty.Session.{in_shell, next, execute, run_parsed, run_line, shell_turn}

-- A line that parses is not blank.
is_empty_words :
    (t : Text) (cmd : ShellCommand) → parse_words (split_whitespace t) ≡ ok cmd → is_empty t ≡ false
unfolding is_empty parse_words split_whitespace
is_empty_words [] cmd h = cc
is_empty_words (c ∷ t) cmd h = refl

is_empty-trim : (s : Text) (cmd : ShellCommand) → Shell.parse s ≡ ok cmd → is_empty (trim s) ≡ false
unfolding Shell.parse
is_empty-trim s cmd h = is_empty_words (trim s) cmd h

module _ (read_pci : ℕ → ℕ) where
  run_line-ok :
      (g : Getty) (s : Text) (cmd : ShellCommand)
      → Shell.parse s ≡ ok cmd
      → run_line read_pci g s ≡ execute read_pci g cmd
  unfolding run_line run_parsed
  run_line-ok g s cmd h = ground (arith, is_empty-trim s cmd h)

  -- The screen after the prompt and the echo of a typed line.
  abbrev pub prompted : Getty → Text → Getty
  prompted g s = record g {
    screen = (g.screen ++ (g.cwd ++ text "# ")) ++ (as_bytes s ++ (10 ∷ []));
  }

  shell_turn-typed :
      (g : Getty) (s : Text) (rest : List ℕ)
      → is_typable s ≡ true
      → shell_turn read_pci g (as_bytes s ++ (13 ∷ rest))
        ≡ next in_shell (run_line read_pci (prompted g s) s) rest
  unfolding shell_turn print
  shell_turn-typed g s rest h =
      ground (arith, read_line-as_bytes (print g (g.cwd ++ text "# ")) s rest)

  -- A command that is typed at the prompt and ended by Return is executed, whatever bytes follow.
  pub shell_turn-line :
      (g : Getty) (cmd : ShellCommand) (rest : List ℕ)
      → is_printable cmd ≡ true
      → is_typable (Print.line cmd) ≡ true
      → shell_turn read_pci g (as_bytes (Print.line cmd) ++ (13 ∷ rest))
        ≡ next in_shell (execute read_pci (prompted g (Print.line cmd)) cmd) rest
  shell_turn-line g cmd rest h k =
      shell_turn-typed g (Print.line cmd) rest k
      ∙ ap (λ g'. next in_shell g' rest)
          (run_line-ok (prompted g (Print.line cmd)) (Print.line cmd) cmd (parse-line cmd h))
