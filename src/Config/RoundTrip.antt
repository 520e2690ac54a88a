-- ===== src/Config/RoundTrip.antt =====
-- What `from_yaml` of kernel/src/config.rs reads back from a printed configuration.
use oci_kernel.Prelude.{
  push-append, ◌*◌, ◌^◌, ◌<◌, ◌≡◌, refl, sym, ap, ◌∙◌, arith, true, false, Option, none, some, List,
  [], ◌∷◌, ◌++◌, push, Result, ok, err,
}
use mathlib.Core.List.{append-nil}
use oci_kernel.Prelude.Text.{Text, text}
use oci_kernel.Container.Spec
use oci_kernel.Container.Spec.{
  PortMapping, RestartPolicy, never, on_failure, always, default, ContainerSpec,
}
use oci_kernel.Config.Builder.{
  ContainerBuilder, new_builder, built, build, unwrap_or, KernelConfig, ConfigError,
}
use oci_kernel.Config.Parse.{Parser, start, flush_container, add_port, step, parse_lines, from_yaml}
use oci_kernel.Config.Printer.{
  Entry, image_line, host_line, container_line, memory_line, pids_line, restart_line, port_lines,
  entry_lines, all_lines, to_yaml, ports_fit, are_entries, spec_of, specs_of,
}
use oci_kernel.Config.Printed.{is_value, are_lines, LowersMegabytes, lines-unlines}
use oci_kernel.Config.Steps.{
  at, closed, with_image, in_work, half_open, plus, step_section, step-image_line, step_ports,
  step-host_line, step-container_line, step_resources, step-memory_line, step-pids_line,
  step-restart_line,
}
use oci_kernel.Config.LineEnds.{are_lines-all_lines, section_lines}

module _ (to_lowercase : Text → Text) (lowers : LowersMegabytes to_lowercase) where
  -- One line of the loop.
  parse_line :
      (l : Text) (ls : List Text) (p q : Parser)
      → step to_lowercase l p ≡ ok q
      → parse_lines to_lowercase (l ∷ ls) p ≡ parse_lines to_lowercase ls q
  unfolding parse_lines
  parse_line l ls p q h =
      ap (λ r. elim r [ err e ↦ err e | ok s ↦ parse_lines to_lowercase ls s ]) h

  parse_ports :
      (ms : List PortMapping) (more : List Text) (cs : List ContainerSpec) (b : ContainerBuilder)
      (q : Option PortMapping)
      → ports_fit ms ≡ true
      → parse_lines to_lowercase
          (port_lines ms (text "    resources:" ∷ more))
          (at cs (some b) true false (half_open q))
        ≡ parse_lines to_lowercase more
            (at cs (some (record b { ports = plus b.ports q ++ ms })) false true none)
  unfolding port_lines ports_fit
  parse_ports [] more cs b q h =
      parse_line (text "    resources:") more _ _ (step_resources to_lowercase cs b q)
      ∙ ap
          (λ ps.
            parse_lines to_lowercase more (at cs (some (record b { ports = ps })) false true none))
          (sym (append-nil (plus b.ports q)))
  parse_ports (m ∷ ms) more cs b q h =
      let host : m.host < 2 ^ 16 = ground arith in
      let container : m.container < 2 ^ 16 = ground arith in
      let rest = port_lines ms (text "    resources:" ∷ more) in
      let b' = record b { ports = plus b.ports q } in
      parse_line (host_line m.host) (container_line m.container ∷ rest) _ _
        (step-host_line to_lowercase cs b q m.host host)
      ∙ parse_line (container_line m.container) rest _ _
          (step-container_line to_lowercase cs b' m.host m.container container)
      ∙ parse_ports ms more cs b' (some m) (ground arith)
      ∙ ap
          (λ ps.
            parse_lines to_lowercase more (at cs (some (record b { ports = ps })) false true none))
          (push-append (plus b.ports q) m ms)

  -- The builder of an entry, when its lines are read.
  abbrev builder_of : Entry → ContainerBuilder
  builder_of e = record {
    image = some e.image;
    ports = e.ports;
    restart = e.restart;
    memory_bytes = some (e.megabytes * (1024 * 1024));
    pids_max = some e.pids_max;
  }

  parse_entry :
      (e : Entry) (more : List Text) (cs : List ContainerSpec)
      (work : Option (ContainerBuilder × Text))
      → is_value e.image ≡ true
      → ports_fit e.ports ≡ true
      → e.megabytes * (1024 * 1024) < 2 ^ 64
      → e.pids_max < 2 ^ 64
      → parse_lines to_lowercase (entry_lines e more) (at cs (in_work work) false false none)
        ≡ parse_lines to_lowercase more
            (at (closed cs work) (in_work (some (builder_of e, e.image))) false false none)
  unfolding entry_lines new_builder
  parse_entry e more cs work image fit memory pids =
      let cs' = closed cs work in
      let b : ContainerBuilder = with_image e.image new_builder in
      let b' : ContainerBuilder = record b { ports = e.ports } in
      let b'' : ContainerBuilder = record b' {
        memory_bytes = some (e.megabytes * (1024 * 1024));
      } in
      let b''' : ContainerBuilder = record b'' { pids_max = some e.pids_max } in
      let last = restart_line e.restart ∷ more in
      let limits = pids_line e.pids_max ∷ last in
      let after = memory_line e.megabytes ∷ limits in
      parse_line (image_line e.image) _ _ _ (step-image_line to_lowercase cs work e.image image)
      ∙ parse_line (text "    ports:") _ _ _ (step_ports to_lowercase cs' b)
      ∙ parse_ports e.ports after cs' b none fit
      ∙ parse_line (memory_line e.megabytes) limits _ _
          (step-memory_line to_lowercase cs' b' e.megabytes lowers memory)
      ∙ parse_line (pids_line e.pids_max) last _ _
          (step-pids_line to_lowercase cs' b'' e.pids_max pids)
      ∙ parse_line (restart_line e.restart) more _ _
          (step-restart_line to_lowercase cs' b''' e.restart)

  -- What follows the loop.
  abbrev finish : Result Parser ConfigError → Result KernelConfig ConfigError
  unfolding add_port flush_container
  finish (err e) = err e
  finish (ok p) = elim (flush_container (add_port p.current_port p)) [
    | err e ↦ err e
    | ok q ↦ ok (record { containers = q.containers })
  ]

  described : List ContainerSpec → Result KernelConfig ConfigError
  described cs = ok (record { containers = cs })

  finish-closed :
      (cs : List ContainerSpec) (work : Option (ContainerBuilder × Text))
      → finish (ok (at cs (in_work work) false false none)) ≡ described (closed cs work)
  unfolding described finish flush_container add_port build
  finish-closed cs none = refl
  finish-closed cs (some (b, image)) = refl

  built-builder_of : (e : Entry) → built (builder_of e) e.image ≡ spec_of e
  unfolding built spec_of unwrap_or default Spec.new
  built-builder_of e = refl

  parse_all :
      (es : List Entry) (cs : List ContainerSpec) (work : Option (ContainerBuilder × Text))
      → are_entries es ≡ true
      → finish (parse_lines to_lowercase (all_lines es) (at cs (in_work work) false false none))
        ≡ described (closed cs work ++ specs_of es)
  unfolding all_lines are_entries specs_of
  parse_all [] cs work h =
      let e : parse_lines to_lowercase [] (at cs (in_work work) false false none)
          ≡ ok (at cs (in_work work) false false none) =
        unfold parse_lines in refl in
      ap finish e ∙ finish-closed cs work ∙ ap described (sym (append-nil (closed cs work)))
  parse_all (e ∷ es) cs work h =
      let image : is_value e.image ≡ true = ground arith in
      let fit : ports_fit e.ports ≡ true = ground arith in
      let memory : e.megabytes * (1024 * 1024) < 2 ^ 64 = ground arith in
      let pids : e.pids_max < 2 ^ 64 = ground arith in
      let cs' = closed cs work in
      ap finish (parse_entry e (all_lines es) cs work image fit memory pids)
      ∙ parse_all es cs' (some (builder_of e, e.image)) (ground arith)
      ∙ ap (λ spec. described (push cs' spec ++ specs_of es)) (built-builder_of e)
      ∙ ap described (push-append cs' (spec_of e) (specs_of es))

  -- A printed configuration is read back: `from_yaml` gives one container for each entry, in their order, with its image, all its ports in order, its limits of memory and of processes and its restart policy. An image is a word, a port is below 2 ^ 16, a limit is below 2 ^ 64, and lower-casing makes `mb` of the `MB` after a number.
  pub from_yaml-to_yaml :
      (es : List Entry)
      → are_entries es ≡ true
      → from_yaml to_lowercase (to_yaml es) ≡ ok (record { containers = specs_of es })
  unfolding from_yaml to_yaml described
  from_yaml-to_yaml es h =
      let whole = text "containers:" ∷ all_lines es in
      let clean : are_lines whole ≡ true =
        section_lines (all_lines es) (are_lines-all_lines es h) in
      let opened : step to_lowercase (text "containers:") start ≡ ok (at [] none false false none) =
        step_section to_lowercase in
      let parsed : finish (parse_lines to_lowercase whole start) ≡ described (specs_of es) =
        ap finish (parse_line (text "containers:") (all_lines es) _ _ opened)
        ∙ parse_all es [] none h in
      ap (λ ls. finish (parse_lines to_lowercase ls start)) (lines-unlines whole clean) ∙ parsed
