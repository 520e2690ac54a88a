-- ===== src/Oci/Layer/Skipped.antt =====
-- How `strip_gzip_header` of kernel/src/oci/layer.rs skips each field of a gzip header.
use mathlib.Core.List.{append-nil, append_assoc}
use oci_kernel.Prelude.{
  ℕ, suc, ◌+◌, ◌-◌, ◌*◌, ◌/◌, ◌%◌, ◌<◌, ◌≡◌, refl, sym, ap, ◌∙◌, arith, Bool, true, Option, none,
  some, List, [], ◌∷◌, ◌++◌, length, length-append, get_or, take, drop, ok,
}
use oci_kernel.Prelude.Slices.{take-length-append}
use oci_kernel.Oci.Layer.{
  has_flag, to_zero, skip_extra, skip_text, skip_if, header_end, stream_from,
}
use oci_kernel.Oci.Layer.Envelope.{
  given, bit, extra_bytes, text_bytes, crc_bytes, fits_u16, has_no_zero, is_text_field,
}

drop-append : (xs ys : List ℕ) → drop (length xs) (xs ++ ys) ≡ ys
drop-append [] ys = refl
drop-append (x ∷ xs) ys = drop-append xs ys

to_zero-append :
    (content more : List ℕ)
    → has_no_zero content ≡ true
    → to_zero (content ++ (0 ∷ more)) ≡ length content
unfolding to_zero has_no_zero
to_zero-append [] more h = ground arith
to_zero-append (b ∷ bs) more h = ground (arith, to_zero-append bs more)

first_byte : (xs ys : List ℕ) (y : ℕ) → get_or (xs ++ (y ∷ ys)) (length xs) 0 ≡ y
first_byte [] ys y = refl
first_byte (x ∷ xs) ys y = first_byte xs ys y

second_byte : (xs ys : List ℕ) (y z : ℕ) → get_or (xs ++ (y ∷ z ∷ ys)) (suc (length xs)) 0 ≡ z
second_byte [] ys y z = refl
second_byte (x ∷ xs) ys y z = second_byte xs ys y z

skip_extra-some :
    (bytes : List ℕ) (offset xlen more : ℕ)
    → get_or bytes offset 0 + get_or bytes (offset + 1) 0 * 256 ≡ xlen
    → length bytes ≡ offset + 2 + xlen + more
    → skip_extra bytes offset ≡ some (offset + 2 + xlen)
unfolding skip_extra
skip_extra-some bytes offset xlen more e l = ground arith

skip_text-some :
    (bytes : List ℕ) (offset n : ℕ)
    → to_zero (drop offset bytes) ≡ n
    → offset + n < length bytes
    → skip_text bytes offset ≡ some (offset + n + 1)
unfolding skip_text
skip_text-some bytes offset n e l = ground arith

-- Each optional field is skipped, whatever stands before and after it.
pub skip_extra-extra_bytes :
    (pre post : List ℕ) (extra : Option (List ℕ))
    → fits_u16 extra ≡ true
    → skip_if (given extra) (skip_extra ((pre ++ extra_bytes extra) ++ post)) (some (length pre))
      ≡ some (length (pre ++ extra_bytes extra))
unfolding skip_if given extra_bytes fits_u16
skip_extra-extra_bytes pre post none h = ap (λ l. some (length l)) (sym (append-nil pre))
skip_extra-extra_bytes pre post (some content) h =
    let bytes = (pre ++ (length content % 256 ∷ length content / 256 ∷ content)) ++ post in
    let parts : bytes ≡ pre ++ (length content % 256 ∷ length content / 256 ∷ (content ++ post)) =
      append_assoc pre (length content % 256 ∷ length content / 256 ∷ content) post in
    let lo : get_or bytes (length pre) 0 ≡ length content % 256 =
      ap (λ bs. get_or bs (length pre) 0) parts ∙ first_byte pre _ (length content % 256) in
    let next : length pre + 1 ≡ suc (length pre) = omega arith in
    let hi : get_or bytes (length pre + 1) 0 ≡ length content / 256 =
      ap (λ bs. get_or bs (length pre + 1) 0) parts
      ∙ ap
          (λ n.
            get_or (pre ++ (length content % 256 ∷ length content / 256 ∷ (content ++ post))) n 0)
          next
      ∙ second_byte pre (content ++ post) (length content % 256) (length content / 256) in
    let long : length bytes ≡ length pre + 2 + length content + length post = omega (
      arith,
      ap length parts,
      length-append pre (length content % 256 ∷ length content / 256 ∷ (content ++ post)),
      length-append content post,
    ) in
    let after = length-append pre (length content % 256 ∷ length content / 256 ∷ content) in
    skip_extra-some bytes (length pre) (length content) (length post) (omega (arith, lo, hi))
      (omega (arith, long))
    ∙ ap some (omega (arith, after))

pub skip_text-text_bytes :
    (pre post : List ℕ) (field : Option (List ℕ))
    → is_text_field field ≡ true
    → skip_if (given field) (skip_text ((pre ++ text_bytes field) ++ post)) (some (length pre))
      ≡ some (length (pre ++ text_bytes field))
unfolding skip_if given text_bytes is_text_field
skip_text-text_bytes pre post none h = ap (λ l. some (length l)) (sym (append-nil pre))
skip_text-text_bytes pre post (some content) h =
    let bytes = (pre ++ (content ++ (0 ∷ []))) ++ post in
    let parts : bytes ≡ pre ++ (content ++ (0 ∷ post)) =
      append_assoc pre (content ++ (0 ∷ [])) post
      ∙ ap (λ bs. pre ++ bs) (append_assoc content (0 ∷ []) post) in
    let stops : to_zero (drop (length pre) bytes) ≡ length content =
      ap (λ bs. to_zero (drop (length pre) bs)) parts
      ∙ ap to_zero (drop-append pre (content ++ (0 ∷ post)))
      ∙ to_zero-append content post h in
    let long : length bytes ≡ length pre + length content + 1 + length post = omega (
      arith,
      ap length parts,
      length-append pre (content ++ (0 ∷ post)),
      length-append content (0 ∷ post),
    ) in
    let after : length (pre ++ (content ++ (0 ∷ []))) ≡ length pre + length content + 1 =
      omega (arith, length-append pre (content ++ (0 ∷ [])), length-append content (0 ∷ [])) in
    skip_text-some bytes (length pre) (length content) stops (omega (arith, long))
    ∙ ap some (sym after)

pub skip-crc_bytes :
    (pre : List ℕ) (crc : Option (ℕ × ℕ))
    → skip_if (given crc) (λ offset. some (offset + 2)) (some (length pre))
      ≡ some (length (pre ++ crc_bytes crc))
unfolding skip_if given crc_bytes
skip-crc_bytes pre none = ap (λ l. some (length l)) (sym (append-nil pre))
skip-crc_bytes pre (some (lo, hi)) = ap some (sym (length-append pre (lo ∷ hi ∷ [])))

pub flag_bits :
    (t c e n m : Bool)
    → (has_flag 1 (bit t + 2 * bit c + 4 * bit e + 8 * bit n + 16 * bit m) ≡ c)
      × (has_flag 2 (bit t + 2 * bit c + 4 * bit e + 8 * bit n + 16 * bit m) ≡ e)
      × (has_flag 3 (bit t + 2 * bit c + 4 * bit e + 8 * bit n + 16 * bit m) ≡ n)
      × (has_flag 4 (bit t + 2 * bit c + 4 * bit e + 8 * bit n + 16 * bit m) ≡ m)
unfolding has_flag
flag_bits t c e n m = (ground arith, ground arith, ground arith, ground arith)

pub stream_from-append :
    (before stream trailer : List ℕ)
    → length trailer ≡ 8
    → stream_from (before ++ (stream ++ trailer)) (length before) ≡ ok stream
unfolding stream_from
stream_from-append before stream trailer t =
    let bytes = before ++ (stream ++ trailer) in
    let long : length bytes ≡ length before + length stream + 8 =
      omega (arith, length-append before (stream ++ trailer), length-append stream trailer, t) in
    let count : length bytes - 8 - length before ≡ length stream = omega (arith, long) in
    let rest : take (length bytes - 8 - length before) (drop (length before) bytes) ≡ stream =
      ap (λ n. take n (drop (length before) bytes)) count
      ∙ ap (take (length stream)) (drop-append before (stream ++ trailer))
      ∙ take-length-append stream trailer in
    ground arith

-- The fields are skipped one after the other.
pub header_end_fields :
    (bytes : List ℕ) (c e n m : Bool) (i j k : ℕ)
    → has_flag 1 (get_or bytes 3 0) ≡ c
    → has_flag 2 (get_or bytes 3 0) ≡ e
    → has_flag 3 (get_or bytes 3 0) ≡ n
    → has_flag 4 (get_or bytes 3 0) ≡ m
    → skip_if e (skip_extra bytes) (some 10) ≡ some i
    → skip_if n (skip_text bytes) (some i) ≡ some j
    → skip_if m (skip_text bytes) (some j) ≡ some k
    → header_end bytes ≡ skip_if c (λ offset. some (offset + 2)) (some k)
unfolding header_end
header_end_fields bytes c e n m i j k hc he hn hm a b d = rw (hc, he, hn, hm, a, b, d) refl
