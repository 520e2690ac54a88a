-- ===== src/Config/LineEnds.antt =====
-- The lines of a printed configuration, as kernel/src/config.rs cuts them.
use oci_kernel.Prelude.{◌≡◌, refl, arith, true, List, [], ◌∷◌, ◌++◌}
use oci_kernel.Prelude.Text.{Text, text}
use oci_kernel.Prelude.Decimal.{to_decimal}
use oci_kernel.Prelude.Words.{lacks}
use oci_kernel.Container.Spec.{PortMapping, RestartPolicy, never, on_failure, always}
use oci_kernel.Config.Printer.{
  Entry, memory_line, pids_line, restart_line, port_lines, entry_lines, all_lines, are_entries,
}
use oci_kernel.Config.Printed.{
  is_value, is_line, are_lines, is_line-is_solid, is_line-append, to_decimal-is_value,
  is_value_megabytes,
}

-- What is printed has no end of a line but those between the lines.
is_line_value : (p v : Text) → is_line p ≡ true → is_value v ≡ true → is_line (p ++ v) ≡ true
is_line_value p v h k = is_line-append p v h (is_line-is_solid v (ground arith))

is_line-restart_line : (r : RestartPolicy) → is_line (restart_line r) ≡ true
unfolding is_line lacks
is_line-restart_line never = refl
is_line-restart_line on_failure = refl
is_line-restart_line always = refl

are_lines-port_lines :
    (ms : List PortMapping) (more : List Text)
    → are_lines more ≡ true
    → are_lines (port_lines ms more) ≡ true
unfolding port_lines are_lines
are_lines-port_lines [] more h = h
are_lines-port_lines (m ∷ ms) more h =
    let a =
      is_line_value (text "      - host: ") (to_decimal m.host)
        (unfold is_line in unfold lacks in refl) (to_decimal-is_value m.host) in
    let b =
      is_line_value (text "        container: ") (to_decimal m.container)
        (unfold is_line in unfold lacks in refl) (to_decimal-is_value m.container) in
    let rest : are_lines (port_lines ms more) ≡ true = are_lines-port_lines ms more h in
    rw (a, b, rest) refl

resources_lines :
    (e : Entry) (more : List Text)
    → are_lines more ≡ true
    → are_lines (
        text "    resources:"
        ∷ memory_line e.megabytes
        ∷ pids_line e.pids_max
        ∷ restart_line e.restart
        ∷ more)
      ≡ true
unfolding are_lines
resources_lines e more h =
    let a =
      is_line_value (text "      pids_max: ") (to_decimal e.pids_max)
        (unfold is_line in unfold lacks in refl) (to_decimal-is_value e.pids_max) in
    let b : is_line (text "    resources:") ≡ true = unfold is_line in unfold lacks in refl in
    let c =
      is_line_value (text "      memory: ") (to_decimal e.megabytes ++ text "MB")
        (unfold is_line in unfold lacks in refl) (is_value_megabytes e.megabytes) in
    rw (b, c, a, is_line-restart_line e.restart, h) refl

pub section_lines :
    (more : List Text) → are_lines more ≡ true → are_lines (text "containers:" ∷ more) ≡ true
unfolding are_lines is_line lacks
section_lines more h = h

pub are_lines-all_lines :
    (es : List Entry) → are_entries es ≡ true → are_lines (all_lines es) ≡ true
unfolding all_lines entry_lines are_entries are_lines
are_lines-all_lines [] h = refl
are_lines-all_lines (e ∷ es) h =
    let rest : are_lines (all_lines es) ≡ true = are_lines-all_lines es (ground arith) in
    let image : is_value e.image ≡ true = ground arith in
    let a =
      is_line_value (text "  - image: ") e.image (unfold is_line in unfold lacks in refl) image in
    let b : is_line (text "    ports:") ≡ true = unfold is_line in unfold lacks in refl in
    let tail =
      text "    resources:"
      ∷ memory_line e.megabytes
      ∷ pids_line e.pids_max
      ∷ restart_line e.restart
      ∷ all_lines es in
    let c : are_lines tail ≡ true = resources_lines e (all_lines es) rest in
    let d = are_lines-port_lines e.ports tail c in rw (a, b, d) refl
