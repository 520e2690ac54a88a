-- ===== src/Config/Line.antt =====
-- The readers of one line of kernel/src/config.rs.
use oci_kernel.Prelude.{ℕ, ◌-◌, ◌*◌, ◌%◌, ◌^◌, Option, none, some, [], if◌then◌else◌}
use oci_kernel.Prelude.Text.{
  Text, text, text_eq, len, trim, trim_start, strip_suffix, after_first, parse_unsigned,
}
use oci_kernel.Container.Spec.{RestartPolicy, never, on_failure, always}

unfoldable pub leading_spaces : Text → ℕ
leading_spaces s = len s - len (trim_start s)

-- `splitn(2, ':').nth(1)`
unfoldable pub value_after_colon : Text → Text
value_after_colon line = elim (after_first b':' line) [ none ↦ [] | some rest ↦ trim rest ]

unfoldable pub parse_u16 : Text → Option ℕ
parse_u16 s = parse_unsigned (2 ^ 16) (trim s)

unfoldable pub parse_restart : Text → RestartPolicy
parse_restart s =
    if text_eq (trim s) (text "always")
    then always
    else if text_eq (trim s) (text "on-failure")
    then on_failure
    else never

unfoldable pub parse_usize : Text → Option ℕ
parse_usize s = parse_unsigned (2 ^ 64) s

unfoldable pub scaled : ℕ → Text → Option ℕ
unfolding parse_usize
scaled unit s = elim (parse_usize (trim s)) [ none ↦ none | some n ↦ some ((n * unit) % 2 ^ 64) ]

module _ (to_lowercase : Text → Text) where
  unfoldable pub parse_memory : Text → Option ℕ
  unfolding scaled
  parse_memory s =
      let t = to_lowercase (trim s) in
      elim (strip_suffix (text "mb") t) [
        | some mb ↦ scaled (1024 * 1024) mb
        | none ↦ elim (strip_suffix (text "gb") t) [
          | some gb ↦ scaled (1024 * 1024 * 1024) gb
          | none ↦ elim (strip_suffix (text "kb") t) [
            | some kb ↦ scaled 1024 kb
            | none ↦ parse_usize t
          ]
        ]
      ]
