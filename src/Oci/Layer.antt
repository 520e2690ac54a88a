-- ===== src/Oci/Layer.antt =====
-- kernel/src/oci/layer.rs: unpacking a layer. Bytes are numbers below 256. The inflater of
-- miniz_oxide is a parameter: the data and the limit give the inflated bytes, or nothing.
pub mod Slices
pub mod Envelope
pub mod Skipped
pub mod Unwrapped
use oci_kernel.Prelude.{
  ℕ, ◌+◌, ◌-◌, ◌*◌, ◌/◌, ◌%◌, ◌^◌, Bool, true, false, not, ◌&&◌, ◌||◌, ◌==◌, ltb, leb,
  if◌then◌else◌, Option, none, some, List, [], ◌∷◌, length, get_or, take, drop, Result, ok, err,
}
use oci_kernel.Prelude.Text.{Text, text, has_text}

pub data LayerError : Type 0 where
  decompress_failed unsupported_compression : LayerError

-- `flags & 2 ^ k != 0`
unfoldable pub has_flag : ℕ → ℕ → Bool
has_flag k flags = flags / 2 ^ k % 2 == 1

-- The offset after the FEXTRA field, where it fits.
unfoldable pub skip_extra : List ℕ → ℕ → Option ℕ
skip_extra bytes offset =
    if ltb (length bytes) (offset + 2)
    then none
    else let xlen = get_or bytes offset 0 + get_or bytes (offset + 1) 0 * 256 in
      if ltb (length bytes) (offset + 2 + xlen) then none else some (offset + 2 + xlen)

-- How far the first zero is.
unfoldable pub to_zero : List ℕ → ℕ
to_zero [] = 0
to_zero (b ∷ bs) = let rest = to_zero bs in if b == 0 then 0 else 1 + rest

-- The offset after a text that a zero ends (FNAME, FCOMMENT).
unfoldable pub skip_text : List ℕ → ℕ → Option ℕ
unfolding to_zero
skip_text bytes offset =
    let stop = offset + to_zero (drop offset bytes) in
    if leb (length bytes) stop then none else some (stop + 1)

-- One optional field.
unfoldable pub skip_if : Bool → (ℕ → Option ℕ) → Option ℕ → Option ℕ
skip_if flag skip none = none
skip_if flag skip (some offset) = if flag then skip offset else some offset

-- Where the deflate stream starts.
unfoldable pub header_end : List ℕ → Option ℕ
header_end bytes =
    let flags = get_or bytes 3 0 in
    let extra = skip_if (has_flag 2 flags) (skip_extra bytes) (some 10) in
    let name = skip_if (has_flag 3 flags) (skip_text bytes) extra in
    let comment = skip_if (has_flag 4 flags) (skip_text bytes) name in
    skip_if (has_flag 1 flags) (λ offset. some (offset + 2)) comment

-- The stream between the header, which ends at the offset, and the trailer.
unfoldable pub stream_from : List ℕ → ℕ → Result (List ℕ) LayerError
stream_from bytes offset =
    if leb (length bytes) offset
    then err decompress_failed
    else let end = length bytes - 8 in
      if ltb end offset then err decompress_failed else ok (take (end - offset) (drop offset bytes))

unfoldable pub strip_gzip_header : List ℕ → Result (List ℕ) LayerError
strip_gzip_header bytes =
    if ltb (length bytes) 18
    then err decompress_failed
    else if not (get_or bytes 0 0 == 0x1f) || not (get_or bytes 1 0 == 0x8b)
    then err decompress_failed
    else elim (header_end bytes) [
      | none ↦ err decompress_failed
      | some offset ↦ stream_from bytes offset
    ]

abbrev pub layer_limit : ℕ
layer_limit = 256 * 1024 * 1024

module _ (inflate : List ℕ → ℕ → Option (List ℕ)) where
  unfoldable pub inflated : List ℕ → Result (List ℕ) LayerError
  inflated deflate_bytes = elim (inflate deflate_bytes layer_limit) [
    | none ↦ err decompress_failed
    | some bytes ↦ ok bytes
  ]

  unfoldable pub decompress : List ℕ → Text → Result (List ℕ) LayerError
  decompress bytes media_type =
      if has_text (text "gzip") media_type || has_text (text "gz") media_type
      then elim (strip_gzip_header bytes) [
        | err e ↦ err e
        | ok deflate_bytes ↦ inflated deflate_bytes
      ]
      else if has_text (text "zstd") media_type
      then err unsupported_compression
      else if has_text (text "tar") media_type && not (has_text (text "gz") media_type)
      then ok bytes
      else err unsupported_compression
