-- ===== src/Oci/Sha256/Digest.antt =====
-- The digest check of kernel/src/oci/registry.rs.
use oci_kernel.Prelude.{
  ℕ, ◌≡◌, ◌↔◌, ap, sym, ◌∙◌, arith, true, Option-cases, inl, inr, if◌then◌else◌, none, some, List,
  ◌++◌, Result, ok, err,
}
use oci_kernel.Prelude.Text.{
  Text, text, text_eq, strip_prefix, text_eq_refl, eq_of_text_eq, strip_prefix-append,
  eq_of_strip_prefix,
}
use oci_kernel.Oci.Manifest.{ParseError}
use oci_kernel.Oci.Sha256.{sha256, hex_encode}

-- `H` is the error of the HTTP client, `E` the one of serde_json.
pub data RegistryError (H E : Type 0) : Type 0 where
  http : H → RegistryError H E
  parse : ParseError E → RegistryError H E
  auth digest_mismatch utf8 : RegistryError H E

module _ {H E : Type 0} where
  unfoldable pub verify_sha256 : List ℕ → Text → Result (Unit {0}) (RegistryError H E)
  verify_sha256 bytes expected_digest = elim (strip_prefix (text "sha256:") expected_digest) [
    | none ↦ err digest_mismatch
    | some hex ↦ if text_eq (hex_encode (sha256 bytes)) hex then ok tt else err digest_mismatch
  ]

  -- Data passes the check against one digest alone: the prefix and the lower-case hexadecimal form of its own hash.
  pub verify_sha256_lem :
      (bytes : List ℕ) (expected_digest : Text)
      → (verify_sha256 bytes expected_digest ≡ ok tt)
        ↔ (expected_digest ≡ text "sha256:" ++ hex_encode (sha256 bytes))
  unfolding verify_sha256
  verify_sha256_lem bytes expected_digest = (
    (λ h. elim (Option-cases (strip_prefix (text "sha256:") expected_digest)) [
      | inl e ↦ ground arith
      | inr (hex, e) ↦
          let x : text_eq (hex_encode (sha256 bytes)) hex ≡ true = ground arith in
          eq_of_strip_prefix (text "sha256:") expected_digest hex e
          ∙ ap (λ t. text "sha256:" ++ t) (sym (eq_of_text_eq (hex_encode (sha256 bytes)) hex x))
    ]),
    (λ e.
        let s =
          ap (strip_prefix (text "sha256:")) e
          ∙ strip_prefix-append (text "sha256:") (hex_encode (sha256 bytes)) in
        ground (arith, text_eq_refl (hex_encode (sha256 bytes)))),
  )
