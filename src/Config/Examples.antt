-- ===== src/Config/Examples.antt =====
-- The theorems on kernel/src/config.rs at a small configuration, and what it reads as.
use oci_kernel.Prelude.Text
use oci_kernel.Prelude.Text.{Text, text, is_empty, starts_with, trim, is_whitespace}
use oci_kernel.Prelude.{◌+◌, ◌*◌, ◌≡◌, refl, arith, ◌&&◌, leb, if◌then◌else◌, List, [], ◌∷◌, ok}
use oci_kernel.Prelude.Decimal.{to_decimal, digits_onto, are_digits}
use oci_kernel.Prelude.Words.{is_solid}
use oci_kernel.Container.Spec
use oci_kernel.Container.Spec.{PortMapping, ContainerSpec}
use oci_kernel.Config.Builder
use oci_kernel.Config.Builder.{KernelConfig, ConfigError}
use oci_kernel.Config.Line
use oci_kernel.Config.Parse
use oci_kernel.Config.Parse.{from_yaml, parse_lines, start}
use oci_kernel.Config.Printer.{
  Entry, to_yaml, unlines, all_lines, entry_lines, port_lines, are_entries, ports_fit, specs_of,
}
use oci_kernel.Config.Printed.{LowersMegabytes}
use oci_kernel.Config.RoundTrip.{from_yaml-to_yaml}
use oci_kernel.Config.Total.{from_yaml_total}

-- Lower-casing of ASCII letters.
abbrev lower_case : Text → Text
lower_case [] = []
lower_case (c ∷ s) = (if leb b'A' c && leb c b'Z' then c + 32 else c) ∷ lower_case s

abbrev yaml : Text
yaml =
    text
      "# boot\ncontainers:\n  - image: web\n    ports:\n      - host: 8080\n        container: 80\n  - image: db\n    restart: always\n    resources:\n      memory: 64MB\n    ports:\n"

abbrev web : ContainerSpec
web = Spec.new (text "web") []

abbrev db : ContainerSpec
db = record (Spec.new (text "db") []) {
  ports = record { host = 8080; container = 80 } ∷ [];
  restart = Spec.always;
  resources = record (Spec.default) { memory_bytes = 64 * 1024 * 1024 };
}

-- The port of `web`, which no line at column 4 follows, is given to `db`.
last_port_moves : from_yaml lower_case yaml ≡ ok (record { containers = web ∷ db ∷ [] })
unfolding from_yaml parse_lines start Parse.step Parse.section Parse.open_container Parse.body_line
    Parse.key_line Parse.item_line Parse.port_line Parse.resource_line Parse.flush_port
    Parse.flush_container Parse.add_port Parse.change_current Parse.set_container_port
    Parse.open_port Builder.build Builder.built Builder.new_builder Builder.unwrap_or
    Line.leading_spaces Line.value_after_colon Line.parse_u16 Line.parse_restart Line.parse_memory
    Line.scaled Line.parse_usize Text.lines Text.line_list Text.strip_cr Text.split Text.trim
    Text.trim_start Text.trim_end Text.is_whitespace Text.len Text.len_utf8 Text.text_eq
    Text.is_empty Text.starts_with Text.strip_suffix Text.after_first Text.parse_unsigned
    Text.parse_digits Spec.new Spec.default
last_port_moves = refl

from_yaml_total_example : (config : KernelConfig) × (from_yaml lower_case yaml ≡ ok config)
from_yaml_total_example = from_yaml_total lower_case yaml

lower_case-LowersMegabytes : LowersMegabytes lower_case
unfolding are_digits
lower_case-LowersMegabytes [] h = refl
lower_case-LowersMegabytes (c ∷ s) h = ground (arith, lower_case-LowersMegabytes s)

abbrev entries : List Entry
entries =
    record {
      image = text "registry:5000/web";
      ports = record { host = 8080; container = 80 } ∷ record { host = 8443; container = 443 } ∷ [];
      megabytes = 64;
      pids_max = 20;
      restart = Spec.on_failure;
    }
    ∷ record {
      image = text "db";
      ports = [];
      megabytes = 512;
      pids_max = 100;
      restart = Spec.always;
    }
    ∷ []

entries_yaml :
    to_yaml entries
    ≡ text
        "containers:\n  - image: registry:5000/web\n    ports:\n      - host: 8080\n        container: 80\n      - host: 8443\n        container: 443\n    resources:\n      memory: 64MB\n      pids_max: 20\n    restart: on-failure\n  - image: db\n    ports:\n    resources:\n      memory: 512MB\n      pids_max: 100\n    restart: always\n"
unfolding to_yaml unlines all_lines entry_lines port_lines to_decimal digits_onto
entries_yaml = refl

from_yaml-to_yaml_example :
    from_yaml lower_case (to_yaml entries) ≡ ok (record { containers = specs_of entries })
unfolding are_entries is_solid is_empty ports_fit is_whitespace
from_yaml-to_yaml_example = from_yaml-to_yaml lower_case lower_case-LowersMegabytes entries refl
