-- ===== src/Host/Shell/Examples.antt =====
-- Commands of kernel/src/host/shell.rs at concrete lines.
use oci_kernel.Prelude.{◌≡◌, refl, some, [], ◌∷◌, ok, err}
use oci_kernel.Prelude.Text.{
  Text, text, text_eq, trim, is_empty, is_whitespace, split_whitespace, split_once,
}
use oci_kernel.Prelude.Words.{join, is_solid, lacks}
use oci_kernel.Prelude.Decimal.{to_decimal}
use oci_kernel.Container.Spec.{read_only}
use oci_kernel.Host.Shell.Options.{bad_port_mapping, parse_ports, unknown_command}
use oci_kernel.Host.Shell.{ShellCommand, container_run, echo, image_pull, parse}
use oci_kernel.Host.Shell.Print.{
  line, words, port_args, volume_args, port_word, volume_word, mode_suffix, all_port_fits,
  are_parts, is_part, port_fits, is_printable,
}
use oci_kernel.Host.Shell.RoundTrip.{parse-line}

-- `container run nginx -p 8080:80 -v /data:/www:ro`
abbrev run_nginx : ShellCommand
run_nginx =
    container_run (text "nginx") (record { host = 8080; container = 80 } ∷ [])
      (record { source = text "/data"; target = text "/www"; access = read_only } ∷ [])

abbrev run_nginx_line : Text
run_nginx_line = text "container run nginx -p 8080:80 -v /data:/www:ro"

run_nginx-line : line run_nginx ≡ run_nginx_line
unfolding line join words port_args volume_args port_word volume_word mode_suffix to_decimal
run_nginx-line = refl

parse-line_example : parse (line run_nginx) ≡ ok run_nginx
unfolding is_printable all_port_fits are_parts is_solid is_part lacks is_empty is_whitespace
    port_fits
parse-line_example = parse-line run_nginx refl

parse-echo : parse (text " echo a  b > f ") ≡ ok (echo (text "a b") (some (text "f")))
unfolding parse split_whitespace trim text_eq
parse-echo = refl

parse_pull_latest :
    parse (text "image pull alpine") ≡ ok (image_pull (text "alpine") (text "latest"))
unfolding parse split_whitespace trim text_eq split_once
parse_pull_latest = refl

parse_port_bad : parse (text "container run nginx -p 8080") ≡ err bad_port_mapping
unfolding parse split_whitespace trim text_eq parse_ports
parse_port_bad = refl

parse_unknown : parse (text "pwd now") ≡ err unknown_command
unfolding parse split_whitespace trim text_eq
parse_unknown = refl
