-- ===== src/Net/Http/Chunked.antt =====
-- `parse_chunked` of kernel/src/net/http.rs. The loop is fuelled by the length of the input.
use oci_kernel.Prelude.{
  ℕ, zero, suc, ◌+◌, ◌-◌, ◌*◌, ◌^◌, ◌&&◌, ltb, leb, ◌==◌, if◌then◌else◌, length, take, drop,
  shift_index, Option, none, some, List, [], ◌∷◌, ◌++◌,
}
use oci_kernel.Prelude.Text.{Text, trim, starts_with, before_first}
use oci_kernel.Prelude.Utf8.{from_utf8}

-- `windows(n).position(|w| w == pat)` for a pattern of `n` bytes.
unfoldable pub position_of : List ℕ → List ℕ → Option ℕ
unfolding starts_with
position_of pat [] = none
position_of pat (c ∷ s) =
    let rest = position_of pat s in if starts_with pat (c ∷ s) then some 0 else shift_index rest

-- The value of a hexadecimal digit.
abbrev pub hex_value : ℕ → Option ℕ
hex_value c =
    if leb b'0' c && leb c b'9'
    then some (c - b'0')
    else if leb b'a' c && leb c b'f'
    then some (c - b'a' + 10)
    else if leb b'A' c && leb c b'F'
    then some (c - b'A' + 10)
    else none

unfoldable pub parse_hex_digits : ℕ → Text → Option ℕ
parse_hex_digits n [] = some n
parse_hex_digits n (c ∷ s) = elim (hex_value c) [
  | none ↦ none
  | some d ↦
      let rest = parse_hex_digits (n * 16 + d) s in if ltb (n * 16 + d) (2 ^ 64) then rest else none
]

-- `usize::from_str_radix(s, 16)`: an optional `+`, then digits.
unfoldable pub from_str_radix : Text → Option ℕ
unfolding parse_hex_digits
from_str_radix [] = none
from_str_radix (c ∷ []) = if c == b'+' then none else parse_hex_digits 0 (c ∷ [])
from_str_radix (c ∷ d ∷ s) =
    if c == b'+' then parse_hex_digits 0 (d ∷ s) else parse_hex_digits 0 (c ∷ d ∷ s)

-- The size that a size line gives, without its extensions.
unfoldable pub size_text : Option Text → Option ℕ
size_text none = none
size_text (some s) = from_str_radix (trim (before_first b';' s))

unfoldable pub chunk_size : List ℕ → Option ℕ
chunk_size line = size_text (from_utf8 line)

pub data Decoded : Type 0 where
  decoded : List ℕ → Decoded
  bad_chunk : Decoded

-- What one round finds: the last chunk, a chunk and what follows it, or an error.
pub data Round : Type 0 where
  last bad : Round
  chunk : List ℕ → List ℕ → Round

-- The size is `n`, and `rest` follows the size line.
unfoldable pub chunk_of : ℕ → List ℕ → Round
chunk_of n rest =
    if n == 0
    then last
    else if leb (2 ^ 64) (n + 2)
    then bad
    else if ltb (length rest) (n + 2)
    then bad
    else chunk (take n rest) (drop (n + 2) rest)

unfoldable pub sized_chunk : Option ℕ → List ℕ → Round
sized_chunk none rest = bad
sized_chunk (some n) rest = chunk_of n rest

unfoldable pub round_at : Option ℕ → List ℕ → Round
round_at none bytes = bad
round_at (some crlf) bytes = sized_chunk (chunk_size (take crlf bytes)) (drop (crlf + 2) bytes)

unfoldable pub round : List ℕ → Round
round bytes = round_at (position_of (13 ∷ 10 ∷ []) bytes) bytes

unfoldable pub chunks : ℕ → List ℕ → List ℕ → Decoded
chunks zero result bytes = bad_chunk
chunks (suc rounds) result bytes = elim (round bytes) [
  | bad ↦ bad_chunk
  | last ↦ decoded result
  | chunk c rest ↦ chunks rounds (result ++ c) rest
]

unfoldable pub parse_chunked : List ℕ → Decoded
parse_chunked bytes = chunks (suc (length bytes)) [] bytes
