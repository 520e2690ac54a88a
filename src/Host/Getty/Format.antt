-- ===== src/Host/Getty/Format.antt =====
-- The width and base that `format!` is given in kernel/src/host/getty.rs.
use oci_kernel.Prelude.{
  ℕ, zero, suc, ◌+◌, ◌-◌, ◌/◌, ◌%◌, ltb, if◌then◌else◌, [], ◌∷◌, ◌++◌, length, replicate,
}
use oci_kernel.Prelude.Text.{Text}

-- `{:<n}`: spaces after, up to the width, which counts characters.
unfoldable pub pad_right : ℕ → Text → Text
pad_right n s = s ++ replicate (n - length s) b' '

-- `{:>n}`
unfoldable pub pad_left : ℕ → Text → Text
pad_left n s = replicate (n - length s) b' ' ++ s

abbrev pub hex_digit : ℕ → ℕ
hex_digit d = if ltb d 10 then b'0' + d else b'a' + (d - 10)

-- `{:0nx}` of a number below 16 ^ n.
unfoldable pub hex : ℕ → ℕ → Text
hex zero x = []
hex (suc n) x = hex n (x / 16) ++ (hex_digit (x % 16) ∷ [])
