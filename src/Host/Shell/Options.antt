-- ===== src/Host/Shell/Options.antt =====
-- The options of `container run` in kernel/src/host/shell.rs.
use oci_kernel.Prelude.{
  ℕ, ◌^◌, Bool, true, false, ◌||◌, if◌then◌else◌, Option, none, some, List, [], ◌∷◌, push, Result,
  ok, err,
}
use oci_kernel.Prelude.Text.{
  Text, text, text_eq, split_once, before_first, after_first, parse_unsigned,
}
use oci_kernel.Container.Spec.{PortMapping, VolumeMount, AccessMode, read_only, read_write}

pub data ShellError : Type 0 where
  unknown_command : ShellError
  missing_argument : Text → ShellError
  bad_port_mapping : ShellError

unfoldable pub is_publish : Text → Bool
is_publish a = text_eq a (text "-p") || text_eq a (text "--publish")

unfoldable pub is_volume : Text → Bool
is_volume a = text_eq a (text "-v") || text_eq a (text "--volume")

-- `host.parse()` to a `u16`.
unfoldable pub port_of : Text → Option ℕ
port_of s = parse_unsigned (2 ^ 16) s

unfoldable pub port_mapping : Text → Result PortMapping ShellError
unfolding port_of split_once
port_mapping s = elim (split_once b':' s) [
  | none ↦ err bad_port_mapping
  | some (host, container) ↦ elim (port_of host) [
    | none ↦ err bad_port_mapping
    | some h ↦ elim (port_of container) [
      | none ↦ err bad_port_mapping
      | some c ↦ ok (record { host = h; container = c })
    ]
  ]
]

-- The loop, with the mappings that it has so far.
unfoldable pub parse_ports : List PortMapping → List Text → Result (List PortMapping) ShellError
unfolding is_publish port_mapping
parse_ports ports [] = ok ports
parse_ports ports (a ∷ []) =
    if is_publish a then err (missing_argument (text "port mapping after -p")) else ok ports
parse_ports ports (a ∷ value ∷ rest) = elim (is_publish a) [
  | false ↦ parse_ports ports (value ∷ rest)
  | true ↦ elim (port_mapping value) [
    | err e ↦ err e
    | ok mapping ↦ parse_ports (push ports mapping) rest
  ]
]

-- `splitn(3, ':')`: the access mode is the third part.
unfoldable pub access_of : Option Text → AccessMode
access_of none = read_write
access_of (some mode) = if text_eq mode (text "ro") then read_only else read_write

unfoldable pub volume_mount : Text → Result VolumeMount ShellError
unfolding access_of before_first after_first
volume_mount s = elim (after_first b':' s) [
  | none ↦ err (missing_argument (text "volume target"))
  | some rest ↦ ok (record {
    source = before_first b':' s;
    target = before_first b':' rest;
    access = access_of (after_first b':' rest);
  })
]

unfoldable pub parse_volumes : List VolumeMount → List Text → Result (List VolumeMount) ShellError
unfolding is_volume volume_mount
parse_volumes volumes [] = ok volumes
parse_volumes volumes (a ∷ []) =
    if is_volume a then err (missing_argument (text "volume mount after -v")) else ok volumes
parse_volumes volumes (a ∷ value ∷ rest) = elim (is_volume a) [
  | false ↦ parse_volumes volumes (value ∷ rest)
  | true ↦ elim (volume_mount value) [
    | err e ↦ err e
    | ok mount ↦ parse_volumes (push volumes mount) rest
  ]
]
