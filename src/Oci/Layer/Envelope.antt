-- ===== src/Oci/Layer/Envelope.antt =====
-- A writer of the gzip envelope of RFC 1952, which kernel/src/oci/layer.rs takes off.
use oci_kernel.Prelude.{
  ℕ, ◌+◌, ◌*◌, ◌/◌, ◌%◌, ◌^◌, Bool, true, false, not, ◌&&◌, ltb, ◌==◌, if◌then◌else◌, Option, none,
  some, List, [], ◌∷◌, ◌++◌, length,
}

-- A gzip header: the method, the six bytes after the flags, the flag for text, and the optional fields.
pub record Header : Type 0 where
  pub method : ℕ
  pub after_flags : ℕ × ℕ × ℕ × ℕ × ℕ × ℕ
  pub is_text : Bool
  pub crc : Option (ℕ × ℕ)
  pub extra : Option (List ℕ)
  pub name : Option (List ℕ)
  pub comment : Option (List ℕ)

unfoldable pub given {ℓ} : {A : Type ℓ} → Option A → Bool
given none = false
given (some x) = true

abbrev pub bit : Bool → ℕ
bit b = if b then 1 else 0

-- The flags of RFC 1952, the lowest bit first: FTEXT, FHCRC, FEXTRA, FNAME, FCOMMENT.
unfoldable pub flags_of : Header → ℕ
unfolding given
flags_of h =
    bit h.is_text
    + 2 * bit (given h.crc)
    + 4 * bit (given h.extra)
    + 8 * bit (given h.name)
    + 16 * bit (given h.comment)

-- The length in two bytes, the low one first, and the content.
unfoldable pub extra_bytes : Option (List ℕ) → List ℕ
extra_bytes none = []
extra_bytes (some content) = length content % 256 ∷ length content / 256 ∷ content

-- The text and a zero.
unfoldable pub text_bytes : Option (List ℕ) → List ℕ
text_bytes none = []
text_bytes (some content) = content ++ (0 ∷ [])

unfoldable pub crc_bytes : Option (ℕ × ℕ) → List ℕ
crc_bytes none = []
crc_bytes (some (lo, hi)) = lo ∷ hi ∷ []

unfoldable pub fixed_bytes : Header → List ℕ
unfolding flags_of
fixed_bytes h =
    let (a, b, c, d, e, f) = h.after_flags in
    0x1f ∷ 0x8b ∷ h.method ∷ flags_of h ∷ a ∷ b ∷ c ∷ d ∷ e ∷ f ∷ []

unfoldable pub enveloped : Header → List ℕ → List ℕ → List ℕ
unfolding fixed_bytes extra_bytes text_bytes crc_bytes
enveloped h stream trailer =
    (((((fixed_bytes h ++ extra_bytes h.extra) ++ text_bytes h.name) ++ text_bytes h.comment)
        ++ crc_bytes h.crc)
      ++ stream)
    ++ trailer

-- The length of the content fits in two bytes.
unfoldable pub fits_u16 : Option (List ℕ) → Bool
fits_u16 none = true
fits_u16 (some content) = ltb (length content) (2 ^ 16)

unfoldable pub has_no_zero : List ℕ → Bool
has_no_zero [] = true
has_no_zero (b ∷ bs) = not (b == 0) && has_no_zero bs

unfoldable pub is_text_field : Option (List ℕ) → Bool
unfolding has_no_zero
is_text_field none = true
is_text_field (some content) = has_no_zero content
