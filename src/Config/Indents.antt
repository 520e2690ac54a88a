-- ===== src/Config/Indents.antt =====
-- The indentation and the text of each printed line, as kernel/src/config.rs reads them.
use oci_kernel.Prelude.{ℕ, ◌≡◌, refl, arith, true, ◌++◌}
use oci_kernel.Prelude.Text.{Text, text, is_whitespace, len, len_utf8, trim, trim_start}
use oci_kernel.Prelude.Decimal.{to_decimal}
use oci_kernel.Config.Line.{leading_spaces}
use oci_kernel.Config.Printer.{image_line, host_line, container_line, memory_line, pids_line}
use oci_kernel.Config.Printed.{
  is_value, trim_line, leading_spaces_of, to_decimal-is_value, is_value_megabytes,
}

pub leading_spaces-image_line : (image : Text) → leading_spaces (image_line image) ≡ 2
unfolding trim_start is_whitespace len len_utf8
leading_spaces-image_line image =
    leading_spaces_of (image_line image) (text "- image: " ++ image) 2 refl (omega arith)

pub trim-image_line :
    (image : Text) → is_value image ≡ true → trim (image_line image) ≡ text "- image: " ++ image
unfolding trim_start is_whitespace
trim-image_line image h = trim_line (image_line image) (text "- image: ") image refl h

pub leading_spaces-host_line : (n : ℕ) → leading_spaces (host_line n) ≡ 6
unfolding trim_start is_whitespace len len_utf8
leading_spaces-host_line n =
    leading_spaces_of (host_line n) (text "- host: " ++ to_decimal n) 6 refl (omega arith)

pub trim-host_line : (n : ℕ) → trim (host_line n) ≡ text "- host: " ++ to_decimal n
unfolding trim_start is_whitespace
trim-host_line n =
    trim_line (host_line n) (text "- host: ") (to_decimal n) refl (to_decimal-is_value n)

pub leading_spaces-container_line : (n : ℕ) → leading_spaces (container_line n) ≡ 8
unfolding trim_start is_whitespace len len_utf8
leading_spaces-container_line n =
    leading_spaces_of (container_line n) (text "container: " ++ to_decimal n) 8 refl (omega arith)

pub trim-container_line : (n : ℕ) → trim (container_line n) ≡ text "container: " ++ to_decimal n
unfolding trim_start is_whitespace
trim-container_line n =
    trim_line (container_line n) (text "container: ") (to_decimal n) refl (to_decimal-is_value n)

pub leading_spaces-memory_line : (n : ℕ) → leading_spaces (memory_line n) ≡ 6
unfolding trim_start is_whitespace len len_utf8
leading_spaces-memory_line n =
    leading_spaces_of (memory_line n) (text "memory: " ++ (to_decimal n ++ text "MB")) 6 refl
      (omega arith)

pub trim-memory_line :
    (n : ℕ) → trim (memory_line n) ≡ text "memory: " ++ (to_decimal n ++ text "MB")
unfolding trim_start is_whitespace
trim-memory_line n =
    trim_line (memory_line n) (text "memory: ") (to_decimal n ++ text "MB") refl
      (is_value_megabytes n)

pub leading_spaces-pids_line : (n : ℕ) → leading_spaces (pids_line n) ≡ 6
unfolding trim_start is_whitespace len len_utf8
leading_spaces-pids_line n =
    leading_spaces_of (pids_line n) (text "pids_max: " ++ to_decimal n) 6 refl (omega arith)

pub trim-pids_line : (n : ℕ) → trim (pids_line n) ≡ text "pids_max: " ++ to_decimal n
unfolding trim_start is_whitespace
trim-pids_line n =
    trim_line (pids_line n) (text "pids_max: ") (to_decimal n) refl (to_decimal-is_value n)
