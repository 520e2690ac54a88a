-- ===== src/Config/Total.antt =====
-- The results of `from_yaml` of kernel/src/config.rs.
use oci_kernel.Prelude.{
  ℕ, ◌≡◌, refl, ◌∙◌, ◌⊎◌, arith, Bool, true, false, inl, inr, ◌||◌, ◌++◌, Option, none, some, List,
  [], ◌∷◌, Result, ok, err,
}
use oci_kernel.Prelude.Text.{Text, text, is_empty, starts_with, trim, lines}
use oci_kernel.Config.Builder.{ConfigError, KernelConfig, ContainerBuilder, new_builder, build}
use oci_kernel.Config.Parse.{
  Parser, start, flush_container, change_current, add_port, flush_port, set_container_port,
  open_port, section, open_container, key_line, resource_line, item_line, port_line, body_line,
  step, parse_lines, from_yaml,
}

-- The container that is being read has its image.
abbrev pub has_image : Option ContainerBuilder → Bool
has_image none = true
has_image (some b) = elim b.image [ none ↦ false | some _ ↦ true ]

-- The result is a parser whose container has its image.
abbrev goes_on : Result Parser ConfigError → Bool
goes_on (ok p) = has_image p.current
goes_on (err _) = false

goes_on-ok :
    (r : Result Parser ConfigError)
    → goes_on r ≡ true
    → (q : Parser) × (r ≡ ok q) × (has_image q.current ≡ true)
goes_on-ok (ok q) h = (q, refl, h)
goes_on-ok (err e) h = cc

pub Result-cases :
    (r : Result Parser ConfigError)
    → ((q : Parser) × (r ≡ ok q)) ⊎ ((e : ConfigError) × (r ≡ err e))
Result-cases (ok q) = inl (q, refl)
Result-cases (err e) = inr (e, refl)

flush-goes_on : (p : Parser) → has_image p.current ≡ true → goes_on (flush_container p) ≡ true
unfolding flush_container build
flush-goes_on p h = ground arith

add_port-has_image :
    (c : Option (Option ℕ × Option ℕ)) (p : Parser)
    → has_image (add_port c p).current ≡ has_image p.current
unfolding add_port change_current
add_port-has_image none p = refl
add_port-has_image (some (none, c)) p = refl
add_port-has_image (some (some h, none)) p = refl
add_port-has_image (some (some h, some c)) p = ground arith

flush_port-has_image : (p : Parser) → has_image (flush_port p).current ≡ has_image p.current
unfolding flush_port
flush_port-has_image p = add_port-has_image p.current_port (record p { current_port = none })

key_line-has_image :
    (line : Text) (p : Parser) → has_image (key_line line p).current ≡ has_image p.current
unfolding key_line change_current open_port
key_line-has_image line p = ground (arith, flush_port-has_image p)

module _ (to_lowercase : Text → Text) where
  body_line-has_image :
      (indent : ℕ) (line : Text) (p : Parser)
      → has_image (body_line to_lowercase indent line p).current ≡ has_image p.current
  unfolding body_line item_line port_line resource_line set_container_port change_current open_port
  body_line-has_image indent line p =
      ground (arith, key_line-has_image line p, flush_port-has_image p)

  step-goes_on :
      (l : Text) (p : Parser) → has_image p.current ≡ true → goes_on (step to_lowercase l p) ≡ true
  unfolding step section open_container new_builder
  step-goes_on l p h =
      ground (arith, flush-goes_on p h, λ (i : ℕ). body_line-has_image i (trim l) p)

  parse_lines-goes_on :
      (ls : List Text) (p : Parser)
      → has_image p.current ≡ true
      → goes_on (parse_lines to_lowercase ls p) ≡ true
  unfolding parse_lines
  parse_lines-goes_on [] p h = h
  parse_lines-goes_on (l ∷ ls) p h =
      let (q, e, h') = goes_on-ok (step to_lowercase l p) (step-goes_on l p h) in
      ground (arith, parse_lines-goes_on ls q h')

  -- Every configuration is accepted: no text at all makes `from_yaml` return an error.
  pub from_yaml_total :
      (yaml : Text) → (config : KernelConfig) × (from_yaml to_lowercase yaml ≡ ok config)
  unfolding from_yaml
  from_yaml_total yaml =
      let (p, e, h) = goes_on-ok _ (parse_lines-goes_on (lines yaml) start refl) in
      let h' = add_port-has_image p.current_port p in
      let (q, e', h'') = goes_on-ok _ (flush-goes_on (add_port p.current_port p) (h' ∙ h)) in
      (record { containers = q.containers }, ground arith)

  parse_lines-append :
      (ls ms : List Text) (p : Parser)
      → parse_lines to_lowercase (ls ++ ms) p ≡ elim (parse_lines to_lowercase ls p) [
        | err e ↦ err e
        | ok q ↦ parse_lines to_lowercase ms q
      ]
  unfolding parse_lines
  parse_lines-append [] ms p = refl
  parse_lines-append (l ∷ ls) ms p = elim (Result-cases (step to_lowercase l p)) [
    | inr (e, h) ↦ ground arith
    | inl (q, h) ↦ ground (arith, parse_lines-append ls ms q)
  ]

  -- A blank line or a comment between any two lines changes nothing, whatever its indentation.
  pub parse_lines-comment :
      (ls : List Text) (l : Text) (ms : List Text) (p : Parser)
      → (is_empty (trim l) || starts_with (text "#") (trim l)) ≡ true
      → parse_lines to_lowercase (ls ++ (l ∷ ms)) p ≡ parse_lines to_lowercase (ls ++ ms) p
  unfolding parse_lines step
  parse_lines-comment ls l ms p h =
      ground (arith, parse_lines-append ls (l ∷ ms) p, parse_lines-append ls ms p)
