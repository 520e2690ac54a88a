-- ===== src/Oci/Layer/Slices.antt =====
-- What the unpacking of kernel/src/oci/layer.rs takes of its input.
use oci_kernel.Prelude.{
  ℕ, ◌+◌, ◌-◌, ◌≤◌, ◌≡◌, refl, ap, sym, ◌∙◌, ◌⊎◌, arith, Bool, true, false, Option-cases, inl, inr,
  leb, Option, none, some, List, length, get_or, take, drop, Result, ok, err,
}
use Prim.Native.Nat.{max}
use oci_kernel.Prelude.Text.{Text}
use oci_kernel.Oci.Layer.{
  LayerError, has_flag, skip_extra, skip_text, skip_if, header_end, stream_from, strip_gzip_header,
  layer_limit, inflated, decompress,
}

-- A field is skipped forwards.
abbrev is_after : ℕ → Option ℕ → Bool
is_after offset none = true
is_after offset (some next) = leb offset next

skip_extra-is_after :
    (bytes : List ℕ) (offset : ℕ) → is_after offset (skip_extra bytes offset) ≡ true
unfolding skip_extra
skip_extra-is_after bytes offset = ground arith

skip_text-is_after : (bytes : List ℕ) (offset : ℕ) → is_after offset (skip_text bytes offset) ≡ true
unfolding skip_text
skip_text-is_after bytes offset = ground arith

skip_if-is_after :
    (start : ℕ) (flag : Bool) (skip : ℕ → Option ℕ) (o : Option ℕ)
    → ((x : ℕ) → is_after x (skip x) ≡ true)
    → is_after start o ≡ true
    → is_after start (skip_if flag skip o) ≡ true
unfolding skip_if
skip_if-is_after start flag skip none h a = refl
skip_if-is_after start false skip (some x) h a = a
skip_if-is_after start true skip (some x) h a = elim (Option-cases (skip x)) [
  | inl e ↦ ground arith
  | inr (y, e) ↦ ground (arith, h x)
]

header_end-is_after : (bytes : List ℕ) → is_after 10 (header_end bytes) ≡ true
unfolding header_end
header_end-is_after bytes =
    let flags = get_or bytes 3 0 in
    let after = skip_if-is_after 10 in
    let text_after = skip_text-is_after bytes in
    after (has_flag 1 flags) _ _ (λ x. ground arith)
      (after (has_flag 4 flags) _ _ text_after (
        after (has_flag 3 flags) _ _ text_after
          (after (has_flag 2 flags) _ (some 10) (skip_extra-is_after bytes) refl)))

stream_from_lem :
    (bytes : List ℕ) (offset : ℕ) (stream : List ℕ)
    → stream_from bytes offset ≡ ok stream
    → (18 ≤ length bytes)
    → (offset + 8 ≤ length bytes) × (stream ≡ take (length bytes - 8 - offset) (drop offset bytes))
unfolding stream_from
stream_from_lem bytes offset stream h l =
    let whole = length bytes in
    let rest = take (whole - 8 - offset) (drop offset bytes) in (ground arith, ground arith)

-- The stream that is found stands after the ten bytes of the fixed header and before the eight of the trailer, and is all that stands between the end of the header and the trailer.
pub strip_gzip_header_lem :
    (bytes stream : List ℕ)
    → strip_gzip_header bytes ≡ ok stream
    → (offset : ℕ) × (header_end bytes ≡ some offset)
      × (10 ≤ offset)
      × (offset + 8 ≤ length bytes)
      × (stream ≡ take (length bytes - 8 - offset) (drop offset bytes))
unfolding strip_gzip_header
strip_gzip_header_lem bytes stream h = elim (Option-cases (header_end bytes)) [
  | inl e ↦ ground arith
  | inr (offset, e) ↦
      let l : 18 ≤ length bytes = ground arith in
      let s : stream_from bytes offset ≡ ok stream = ground arith in
      let a : is_after 10 (some offset) ≡ true =
        ap (is_after 10) (sym e) ∙ header_end-is_after bytes in
      let (b, t) = stream_from_lem bytes offset stream s l in (offset, e, ground arith, b, t)
]

Result-cases :
    (r : Result (List ℕ) LayerError)
    → ((s : List ℕ) × (r ≡ ok s)) ⊎ ((e : LayerError) × (r ≡ err e))
Result-cases (ok s) = inl (s, refl)
Result-cases (err e) = inr (e, refl)

module _ (inflate : List ℕ → ℕ → Option (List ℕ)) where
  -- Where the inflater keeps its limit, an unpacked layer is at most as long as its packed form or as 256 MB, whichever is more.
  pub decompress-length :
      ((bytes out : List ℕ) (limit : ℕ) → inflate bytes limit ≡ some out → length out ≤ limit)
      → (bytes : List ℕ) (media_type : Text) (out : List ℕ)
      → decompress inflate bytes media_type ≡ ok out
      → length out ≤ max layer_limit (length bytes)
  unfolding decompress inflated
  decompress-length within bytes media_type out h = elim (Result-cases (strip_gzip_header bytes)) [
    | inr (e, r) ↦ ground arith
    | inl (stream, r) ↦ ground (arith, within stream out layer_limit)
  ]
