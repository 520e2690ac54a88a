-- ===== src/Config/Steps.antt =====
-- What each printed line does to the state of the loop of kernel/src/config.rs.
use oci_kernel.Prelude.{
  ℕ, ◌*◌, ◌^◌, ◌<◌, ◌≡◌, refl, Bool, true, false, Option, none, some, List, [], ◌++◌, push, ok,
}
use oci_kernel.Prelude.Text.{
  Text, text, text_eq, is_empty, is_whitespace, len, len_utf8, starts_with, trim, trim_start,
  trim_end, after_first,
}
use oci_kernel.Prelude.Decimal.{to_decimal, parse_unsigned-to_decimal}
use oci_kernel.Container.Spec.{PortMapping, RestartPolicy, never, on_failure, always, ContainerSpec}
use oci_kernel.Config.Builder.{ContainerBuilder, new_builder, built, build}
use oci_kernel.Config.Line.{leading_spaces, value_after_colon, parse_restart, parse_usize}
use oci_kernel.Config.Parse.{
  Parser, start, flush_container, change_current, add_port, flush_port, set_container_port,
  open_port, section, open_container, key_line, resource_line, item_line, port_line, body_line,
  step,
}
use oci_kernel.Config.Printer.{
  image_line, host_line, container_line, memory_line, pids_line, restart_line,
}
use oci_kernel.Config.Printed.{
  is_value, trim_space, to_decimal-is_value, is_value_megabytes, LowersMegabytes,
  parse_memory_megabytes, parse_u16-to_decimal,
}
use oci_kernel.Config.Indents.{
  leading_spaces-image_line, trim-image_line, leading_spaces-host_line, trim-host_line,
  leading_spaces-container_line, trim-container_line, leading_spaces-memory_line, trim-memory_line,
  leading_spaces-pids_line, trim-pids_line,
}

-- Between the lines of the section, with a container in work or without one.
abbrev pub at :
    List ContainerSpec
    → Option ContainerBuilder
    → Bool
    → Bool
    → Option (Option ℕ × Option ℕ)
    → Parser
at cs current in_ports in_resources pending = record {
  containers = cs;
  in_containers = true;
  current = current;
  in_ports = in_ports;
  in_resources = in_resources;
  current_port = pending;
}

-- The containers once the one in work is closed.
abbrev pub closed : List ContainerSpec → Option (ContainerBuilder × Text) → List ContainerSpec
closed cs none = cs
closed cs (some (b, image)) = push cs (built b image)

abbrev pub with_image : Text → ContainerBuilder → ContainerBuilder
with_image image b = record b { image = some image }

abbrev pub in_work : Option (ContainerBuilder × Text) → Option ContainerBuilder
in_work none = none
in_work (some (b, image)) = some (with_image image b)

abbrev pub half_open : Option PortMapping → Option (Option ℕ × Option ℕ)
half_open none = none
half_open (some m) = some (some m.host, some m.container)

abbrev pub plus : List PortMapping → Option PortMapping → List PortMapping
plus ms none = ms
plus ms (some m) = push ms m

module _ (to_lowercase : Text → Text) where
  pub step_section : step to_lowercase (text "containers:") start ≡ ok (at [] none false false none)
  unfolding step section flush_container start text_eq starts_with is_empty leading_spaces len
      len_utf8 trim trim_start trim_end is_whitespace
  step_section = refl

  pub step-image_line :
      (cs : List ContainerSpec) (work : Option (ContainerBuilder × Text)) (image : Text)
      → is_value image ≡ true
      → step to_lowercase (image_line image) (at cs (in_work work) false false none)
        ≡ ok (at (closed cs work) (some (with_image image new_builder)) false false none)
  unfolding step open_container flush_container build value_after_colon after_first starts_with
      is_empty
  step-image_line cs none image h =
      rw (leading_spaces-image_line image, trim-image_line image h, trim_space image h) refl
  step-image_line cs (some (b, i)) image h =
      rw (leading_spaces-image_line image, trim-image_line image h, trim_space image h) refl

  pub step_ports :
      (cs : List ContainerSpec) (b : ContainerBuilder)
      → step to_lowercase (text "    ports:") (at cs (some b) false false none)
        ≡ ok (at cs (some b) true false none)
  unfolding step body_line key_line flush_port add_port text_eq starts_with is_empty leading_spaces
      len len_utf8 trim trim_start trim_end is_whitespace
  step_ports cs b = refl

  pub step-host_line :
      (cs : List ContainerSpec) (b : ContainerBuilder) (q : Option PortMapping) (n : ℕ)
      → n < 2 ^ 16
      → step to_lowercase (host_line n) (at cs (some b) true false (half_open q))
        ≡ ok (at cs (some (record b { ports = plus b.ports q })) true false (some (some n, none)))
  unfolding step body_line item_line open_port flush_port add_port change_current value_after_colon
      after_first starts_with is_empty
  step-host_line cs b none n h =
      rw
        (
          leading_spaces-host_line n,
          trim-host_line n,
          trim_space (to_decimal n) (to_decimal-is_value n),
          parse_u16-to_decimal n h,
        )
        refl
  step-host_line cs b (some m) n h =
      rw
        (
          leading_spaces-host_line n,
          trim-host_line n,
          trim_space (to_decimal n) (to_decimal-is_value n),
          parse_u16-to_decimal n h,
        )
        refl

  pub step-container_line :
      (cs : List ContainerSpec) (b : ContainerBuilder) (m n : ℕ)
      → n < 2 ^ 16
      → step to_lowercase (container_line n) (at cs (some b) true false (some (some m, none)))
        ≡ ok (at cs (some b) true false (some (some m, some n)))
  unfolding step body_line port_line set_container_port value_after_colon after_first starts_with
      is_empty
  step-container_line cs b m n h =
      rw
        (
          leading_spaces-container_line n,
          trim-container_line n,
          trim_space (to_decimal n) (to_decimal-is_value n),
          parse_u16-to_decimal n h,
        )
        refl

  pub step_resources :
      (cs : List ContainerSpec) (b : ContainerBuilder) (q : Option PortMapping)
      → step to_lowercase (text "    resources:") (at cs (some b) true false (half_open q))
        ≡ ok (at cs (some (record b { ports = plus b.ports q })) false true none)
  unfolding step body_line key_line flush_port add_port change_current text_eq starts_with is_empty
      leading_spaces len len_utf8 trim trim_start trim_end is_whitespace
  step_resources cs b none = refl
  step_resources cs b (some m) = refl

  pub step-memory_line :
      (cs : List ContainerSpec) (b : ContainerBuilder) (n : ℕ)
      → LowersMegabytes to_lowercase
      → n * (1024 * 1024) < 2 ^ 64
      → step to_lowercase (memory_line n) (at cs (some b) false true none)
        ≡ ok (at cs (some (record b { memory_bytes = some (n * (1024 * 1024)) })) false true none)
  unfolding step body_line item_line resource_line change_current value_after_colon after_first
      starts_with is_empty
  step-memory_line cs b n lowers h =
      rw
        (
          leading_spaces-memory_line n,
          trim-memory_line n,
          trim_space (to_decimal n ++ text "MB") (is_value_megabytes n),
          parse_memory_megabytes to_lowercase n lowers h,
        )
        refl

  pub step-pids_line :
      (cs : List ContainerSpec) (b : ContainerBuilder) (n : ℕ)
      → n < 2 ^ 64
      → step to_lowercase (pids_line n) (at cs (some b) false true none)
        ≡ ok (at cs (some (record b { pids_max = some n })) false true none)
  unfolding step body_line item_line resource_line parse_usize change_current value_after_colon
      after_first starts_with is_empty
  step-pids_line cs b n h =
      rw
        (
          leading_spaces-pids_line n,
          trim-pids_line n,
          trim_space (to_decimal n) (to_decimal-is_value n),
          parse_unsigned-to_decimal (2 ^ 64) n h,
        )
        refl

  pub step-restart_line :
      (cs : List ContainerSpec) (b : ContainerBuilder) (r : RestartPolicy)
      → step to_lowercase (restart_line r) (at cs (some b) false true none)
        ≡ ok (at cs (some (record b { restart = r })) false false none)
  unfolding step body_line key_line flush_port add_port change_current parse_restart
      value_after_colon after_first text_eq starts_with is_empty leading_spaces len len_utf8 trim
      trim_start trim_end is_whitespace
  step-restart_line cs b never = refl
  step-restart_line cs b on_failure = refl
  step-restart_line cs b always = refl
