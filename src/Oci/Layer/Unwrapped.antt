-- ===== src/Oci/Layer/Unwrapped.antt =====
-- What `strip_gzip_header` of kernel/src/oci/layer.rs takes out of a gzip file.
use mathlib.Core.List.{append_assoc}
use oci_kernel.Prelude.{
  ℕ, ◌+◌, ◌*◌, ◌≤◌, ◌≡◌, refl, ap, ◌∙◌, arith, true, some, List, ◌++◌, length, length-append,
  get_or, ok,
}
use oci_kernel.Oci.Layer.{
  has_flag, skip_extra, skip_text, skip_if, header_end, stream_from, strip_gzip_header,
}
use oci_kernel.Oci.Layer.Envelope.{
  Header, given, bit, flags_of, extra_bytes, text_bytes, crc_bytes, fixed_bytes, enveloped,
  fits_u16, is_text_field,
}
use oci_kernel.Oci.Layer.Skipped.{
  skip_extra-extra_bytes, skip_text-text_bytes, skip-crc_bytes, flag_bits, stream_from-append,
  header_end_fields,
}

module _ (h : Header) (stream trailer : List ℕ) (extra_fits : fits_u16 h.extra ≡ true)
    (name_fits : is_text_field h.name ≡ true) (comment_fits : is_text_field h.comment ≡ true) where
  abbrev with_extra : List ℕ
  with_extra = fixed_bytes h ++ extra_bytes h.extra

  abbrev with_name : List ℕ
  with_name = with_extra ++ text_bytes h.name

  abbrev with_comment : List ℕ
  with_comment = with_name ++ text_bytes h.comment

  abbrev whole : List ℕ
  whole = with_comment ++ crc_bytes h.crc

  abbrev after_crc : List ℕ
  after_crc = stream ++ trailer

  abbrev after_comment : List ℕ
  after_comment = crc_bytes h.crc ++ after_crc

  abbrev after_name : List ℕ
  after_name = text_bytes h.comment ++ after_comment

  abbrev after_extra : List ℕ
  after_extra = text_bytes h.name ++ after_name

  enveloped-whole : enveloped h stream trailer ≡ whole ++ after_crc
  unfolding enveloped
  enveloped-whole = append_assoc whole stream trailer

  enveloped-comment : enveloped h stream trailer ≡ with_comment ++ after_comment
  enveloped-comment = enveloped-whole ∙ append_assoc with_comment (crc_bytes h.crc) after_crc

  enveloped-name : enveloped h stream trailer ≡ with_name ++ after_name
  enveloped-name = enveloped-comment ∙ append_assoc with_name (text_bytes h.comment) after_comment

  enveloped-extra : enveloped h stream trailer ≡ with_extra ++ after_extra
  enveloped-extra = enveloped-name ∙ append_assoc with_extra (text_bytes h.name) after_name

  header_end-enveloped : header_end (enveloped h stream trailer) ≡ some (length whole)
  header_end-enveloped =
      let bytes = enveloped h stream trailer in
      let flags = flags_of h in
      let read : get_or bytes 3 0 ≡ flags = unfold enveloped in unfold fixed_bytes in refl in
      let (crc, extra, name, comment) =
        flag_bits h.is_text (given h.crc) (given h.extra) (given h.name) (given h.comment) in
      let skipped_extra : skip_if (given h.extra) (skip_extra bytes) (some 10)
          ≡ some (length with_extra) =
        ap (λ bs. skip_if (given h.extra) (skip_extra bs) (some 10)) enveloped-extra
        ∙ unfold fixed_bytes in
          skip_extra-extra_bytes (fixed_bytes h) after_extra h.extra extra_fits in
      let skipped_name : skip_if (given h.name) (skip_text bytes) (some (length with_extra))
          ≡ some (length with_name) =
        ap (λ bs. skip_if (given h.name) (skip_text bs) (some (length with_extra))) enveloped-name
        ∙ skip_text-text_bytes with_extra after_name h.name name_fits in
      let skipped_comment : skip_if (given h.comment) (skip_text bytes) (some (length with_name))
          ≡ some (length with_comment) =
        ap (λ bs. skip_if (given h.comment) (skip_text bs) (some (length with_name)))
          enveloped-comment
        ∙ skip_text-text_bytes with_name after_comment h.comment comment_fits in
      let bits : get_or bytes 3 0
          ≡ bit h.is_text
            + 2 * bit (given h.crc)
            + 4 * bit (given h.extra)
            + 8 * bit (given h.name)
            + 16 * bit (given h.comment) =
        read ∙ unfold flags_of in refl in
      header_end_fields bytes (given h.crc) (given h.extra) (given h.name) (given h.comment)
        (length with_extra) (length with_name) (length with_comment) (ap (has_flag 1) bits ∙ crc)
        (ap (has_flag 2) bits ∙ extra) (ap (has_flag 3) bits ∙ name)
        (ap (has_flag 4) bits ∙ comment) skipped_extra skipped_name skipped_comment
      ∙ skip-crc_bytes with_comment h.crc

  -- `strip_gzip_header` takes out of a gzip file exactly its stream, whatever stands in the fixed header, the optional fields and the trailer: the extra field may be as long as its two bytes of length tell, the name and the comment have no zero before the one that ends them, and the trailer has eight bytes.
  pub strip_gzip_header-enveloped :
      length trailer ≡ 8 → strip_gzip_header (enveloped h stream trailer) ≡ ok stream
  strip_gzip_header-enveloped t =
      let bytes = enveloped h stream trailer in
      let ended = header_end-enveloped in
      let cut : stream_from bytes (length whole) ≡ ok stream =
        ap (λ bs. stream_from bs (length whole)) enveloped-whole
        ∙ stream_from-append whole stream trailer t in
      let ten : length (fixed_bytes h) ≡ 10 = unfold fixed_bytes in refl in
      let long : 18 ≤ length bytes = omega (
        arith,
        ten,
        t,
        ap length enveloped-whole,
        length-append whole after_crc,
        length-append stream trailer,
        length-append with_comment (crc_bytes h.crc),
        length-append with_name (text_bytes h.comment),
        length-append with_extra (text_bytes h.name),
        length-append (fixed_bytes h) (extra_bytes h.extra),
      ) in
      let first : get_or bytes 0 0 ≡ 0x1f = unfold enveloped in unfold fixed_bytes in refl in
      let second : get_or bytes 1 0 ≡ 0x8b = unfold enveloped in unfold fixed_bytes in refl in
      unfold strip_gzip_header in (ground (arith, ended, cut, long, first, second))
