-- ===== src/Config/Parse.antt =====
-- `KernelConfig::from_yaml` of kernel/src/config.rs: the loop over the lines, one step for each.
use oci_kernel.Prelude.{
  ℕ, Bool, true, false, ◌&&◌, ◌==◌, if◌then◌else◌, Option, none, some, List, [], ◌∷◌, push, Result,
  ok, err,
}
use oci_kernel.Prelude.Text.{Text, text, text_eq, is_empty, starts_with, trim, lines}
use oci_kernel.Container.Spec.{ContainerSpec}
use oci_kernel.Config.Builder.{ConfigError, KernelConfig, ContainerBuilder, new_builder, build}
use oci_kernel.Config.Line.{
  leading_spaces, value_after_colon, parse_u16, parse_restart, parse_usize, parse_memory,
}

-- The local variables of the loop.
pub record Parser : Type 0 where
  pub containers : List ContainerSpec
  pub in_containers : Bool
  pub current : Option ContainerBuilder
  pub in_ports : Bool
  pub in_resources : Bool
  pub current_port : Option (Option ℕ × Option ℕ)

unfoldable pub start : Parser
start = record {
  containers = [];
  in_containers = false;
  current = none;
  in_ports = false;
  in_resources = false;
  current_port = none;
}

-- `if let Some(builder) = current.take() { containers.push(builder.build()?) }`
unfoldable pub flush_container : Parser → Result Parser ConfigError
flush_container p = elim p.current [
  | none ↦ ok p
  | some b ↦ elim (build b) [
    | err e ↦ err e
    | ok spec ↦ ok (record p { containers = push p.containers spec; current = none })
  ]
]

-- `if let Some(ref mut b) = current`
unfoldable pub change_current : (ContainerBuilder → ContainerBuilder) → Parser → Parser
change_current change p = elim p.current [
  | none ↦ p
  | some b ↦ record p { current = some (change b) }
]

unfoldable pub add_port : Option (Option ℕ × Option ℕ) → Parser → Parser
unfolding change_current
add_port (some (some h, some c)) p =
    change_current (λ b. record b { ports = push b.ports (record { host = h; container = c }) }) p
add_port (some (some h, none)) p = p
add_port (some (none, c)) p = p
add_port none p = p

-- `if let Some((Some(h), Some(c))) = current_port.take()`
unfoldable pub flush_port : Parser → Parser
unfolding add_port
flush_port p = add_port p.current_port (record p { current_port = none })

unfoldable pub set_container_port : Option ℕ → Parser → Parser
set_container_port c p = elim p.current_port [
  | none ↦ p
  | some (h, _) ↦ record p { current_port = some (h, c) }
]

unfoldable pub open_port : Text → Parser → Parser
open_port line p = record p { current_port = some (parse_u16 (value_after_colon line), none) }

-- A line at column 0.
unfoldable pub section : Text → Parser → Result Parser ConfigError
unfolding flush_container
section line p = elim (flush_container p) [
  | err e ↦ err e
  | ok q ↦ ok (record q {
    in_containers = text_eq line (text "containers:");
    in_ports = false;
    in_resources = false;
  })
]

-- A line `- image:` at column 2.
unfoldable pub open_container : Text → Parser → Result Parser ConfigError
unfolding flush_container new_builder
open_container line p = elim (flush_container p) [
  | err e ↦ err e
  | ok q ↦ ok (record q {
    in_ports = false;
    in_resources = false;
    current = some (record new_builder { image = some (value_after_colon line) });
  })
]

-- A line at column 4, where it continues to the tests after it: none of them is met at column 4.
unfoldable pub key_line : Text → Parser → Parser
unfolding flush_port change_current open_port
key_line line p =
    let q = flush_port p in
    if text_eq line (text "ports:")
    then record q { in_ports = true; in_resources = false }
    else if text_eq line (text "resources:")
    then record q { in_resources = true; in_ports = false }
    else if starts_with (text "restart:") line
    then record (change_current (λ b. record b { restart = parse_restart (value_after_colon line) })
        q) { in_ports = false; in_resources = false }
    else if q.in_ports && starts_with (text "- host:") line
    then open_port line q
    else q

module _ (to_lowercase : Text → Text) where
  -- A key below `resources:`.
  unfoldable pub resource_line : Text → Parser → Parser
  unfolding change_current
  resource_line line p =
      let v = value_after_colon line in
      let q =
        if starts_with (text "memory:") line
        then change_current (λ b. record b { memory_bytes = parse_memory to_lowercase v }) p
        else p in
      if starts_with (text "pids_max:") line
      then change_current (λ b. record b { pids_max = parse_usize v }) q
      else q

  -- A line at column 6.
  unfoldable pub item_line : Text → Parser → Parser
  unfolding flush_port open_port set_container_port resource_line
  item_line line p =
      if p.in_ports && starts_with (text "- host:") line
      then open_port line (flush_port p)
      else if p.in_ports && starts_with (text "container:") line
      then set_container_port (parse_u16 (value_after_colon line)) p
      else if p.in_resources
      then resource_line line p
      else p

  -- A line at column 8.
  unfoldable pub port_line : Text → Parser → Parser
  unfolding set_container_port
  port_line line p =
      if p.in_ports && starts_with (text "container:") line
      then set_container_port (parse_u16 (value_after_colon line)) p
      else p

  -- A line of `containers:` that opens no container.
  unfoldable pub body_line : ℕ → Text → Parser → Parser
  unfolding key_line item_line port_line
  body_line indent line p =
      if indent == 4
      then key_line line p
      else if indent == 6
      then item_line line p
      else if indent == 8
      then port_line line p
      else p

  -- One round of the loop.
  unfoldable pub step : Text → Parser → Result Parser ConfigError
  unfolding section open_container body_line
  step raw_line p =
      let indent = leading_spaces raw_line in
      let line = trim raw_line in
      if is_empty line
      then ok p
      else if starts_with (text "#") line
      then ok p
      else if indent == 0
      then section line p
      else if p.in_containers
      then if (indent == 2) && starts_with (text "- image:") line
        then open_container line p
        else ok (body_line indent line p)
      else ok p

  unfoldable pub parse_lines : List Text → Parser → Result Parser ConfigError
  unfolding step
  parse_lines [] p = ok p
  parse_lines (l ∷ ls) p = elim (step l p) [ err e ↦ err e | ok q ↦ parse_lines ls q ]

  unfoldable pub from_yaml : Text → Result KernelConfig ConfigError
  unfolding parse_lines start add_port flush_container
  from_yaml yaml = elim (parse_lines (lines yaml) start) [
    | err e ↦ err e
    | ok p ↦ elim (flush_container (add_port p.current_port p)) [
      | err e ↦ err e
      | ok q ↦ ok (record { containers = q.containers })
    ]
  ]
