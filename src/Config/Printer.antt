-- ===== src/Config/Printer.antt =====
-- A printer of the configurations that kernel/src/config.rs reads.
use oci_kernel.Prelude.{ℕ, ◌*◌, ◌^◌, Bool, true, not, ◌&&◌, ltb, List, [], ◌∷◌, ◌++◌}
use oci_kernel.Prelude.Text.{Text, text, is_empty}
use oci_kernel.Prelude.Decimal.{to_decimal}
use oci_kernel.Prelude.Words.{is_solid}
use oci_kernel.Container.Spec
use oci_kernel.Container.Spec.{
  PortMapping, RestartPolicy, never, on_failure, always, default, ContainerSpec,
}

-- What a configuration tells of a container.
pub record Entry : Type 0 where
  pub image : Text
  pub ports : List PortMapping
  pub megabytes : ℕ
  pub pids_max : ℕ
  pub restart : RestartPolicy

abbrev pub image_line : Text → Text
image_line image = text "  - image: " ++ image

abbrev pub host_line : ℕ → Text
host_line n = text "      - host: " ++ to_decimal n

abbrev pub container_line : ℕ → Text
container_line n = text "        container: " ++ to_decimal n

abbrev pub memory_line : ℕ → Text
memory_line n = text "      memory: " ++ (to_decimal n ++ text "MB")

abbrev pub pids_line : ℕ → Text
pids_line n = text "      pids_max: " ++ to_decimal n

abbrev pub restart_line : RestartPolicy → Text
restart_line never = text "    restart: never"
restart_line on_failure = text "    restart: on-failure"
restart_line always = text "    restart: always"

unfoldable pub port_lines : List PortMapping → List Text → List Text
port_lines [] more = more
port_lines (m ∷ ms) more = host_line m.host ∷ container_line m.container ∷ port_lines ms more

unfoldable pub entry_lines : Entry → List Text → List Text
unfolding port_lines
entry_lines e more =
    image_line e.image
    ∷ text "    ports:"
    ∷ port_lines e.ports (
        text "    resources:"
        ∷ memory_line e.megabytes
        ∷ pids_line e.pids_max
        ∷ restart_line e.restart
        ∷ more)

unfoldable pub all_lines : List Entry → List Text
unfolding entry_lines
all_lines [] = []
all_lines (e ∷ es) = entry_lines e (all_lines es)

unfoldable pub unlines : List Text → Text
unlines [] = []
unlines (l ∷ ls) = l ++ (10 ∷ unlines ls)

unfoldable pub to_yaml : List Entry → Text
unfolding all_lines unlines
to_yaml es = unlines (text "containers:" ∷ all_lines es)

-- The numbers are values of their types.
unfoldable pub ports_fit : List PortMapping → Bool
ports_fit [] = true
ports_fit (m ∷ ms) = ltb m.host (2 ^ 16) && ltb m.container (2 ^ 16) && ports_fit ms

-- The image is a word, and the numbers are values of their types.
unfoldable pub are_entries : List Entry → Bool
unfolding ports_fit is_solid is_empty
are_entries [] = true
are_entries (e ∷ es) =
    is_solid e.image
    && not (is_empty e.image)
    && ports_fit e.ports
    && ltb (e.megabytes * (1024 * 1024)) (2 ^ 64)
    && ltb e.pids_max (2 ^ 64)
    && are_entries es

-- The container of an entry: what the entry does not tell is as it is by default.
unfoldable pub spec_of : Entry → ContainerSpec
spec_of e = record (Spec.new e.image []) {
  ports = e.ports;
  restart = e.restart;
  resources = record default { memory_bytes = e.megabytes * (1024 * 1024); pids_max = e.pids_max };
}

unfoldable pub specs_of : List Entry → List ContainerSpec
unfolding spec_of
specs_of [] = []
specs_of (e ∷ es) = spec_of e ∷ specs_of es
