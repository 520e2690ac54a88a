-- ===== src/Oci/Registry.antt =====
-- The registry client of kernel/src/oci/registry.rs. The HTTPS request is a parameter, and so are the
-- UTF-8 check of the body and the readers of serde_json.
use oci_kernel.Prelude.{
  ℕ, ◌≡◌, refl, ap, ◌∙◌, arith, Option, none, some, inl, inr, ◌⊎◌, List, [], ◌∷◌, ◌++◌, Result, ok,
  err,
}
use oci_kernel.Prelude.Text.{Text, text}
use oci_kernel.Net.Http.{HttpResponse}
use oci_kernel.Oci.Manifest.{Json, ImageManifest, json, from_json}
use oci_kernel.Oci.Sha256.{sha256, hex_encode}
use oci_kernel.Oci.Sha256.Digest.{
  RegistryError, http, parse, auth, utf8, verify_sha256, verify_sha256_lem,
}

pub record Registry : Type 0 where
  pub host : Text
  pub token : Option Text

unfoldable pub new : Text → Registry
new host = record { host = host; token = none }

-- What lies outside: the request for a host, a path and headers, and `from_utf8`.
pub record Outside (H : Type 0) : Type 0 where
  pub get_with_headers : Text → Text → List (Text × Text) → Result HttpResponse H
  pub from_utf8 : List ℕ → Option Text

module _ {H V E : Type 0} (o : Outside H) (j : Json V E) where
  -- The token of the answer to an authentication.
  unfoldable pub token_of : Text → Result Text (RegistryError H E)
  token_of body = elim (j.from_str body) [
    | err e ↦ err (parse (json e))
    | ok v ↦ elim (j.as_str (j.index v (text "token"))) [ none ↦ err auth | some t ↦ ok t ]
  ]

  -- The text of a response's body.
  unfoldable pub body_text : Result HttpResponse H → Result Text (RegistryError H E)
  body_text (err e) = err (http e)
  body_text (ok resp) = elim (o.from_utf8 resp.body) [ none ↦ err utf8 | some s ↦ ok s ]

  unfoldable pub authenticate : Registry → Text → Result (Unit {0}) (RegistryError H E) × Registry
  unfolding token_of body_text
  authenticate r image =
      let path =
        text "/token?service=registry.docker.io&scope=repository:" ++ (image ++ text ":pull") in
      elim (body_text (o.get_with_headers (text "auth.docker.io") path [])) [
        | err e ↦ (err e, r)
        | ok body ↦ elim (token_of body) [
          | err e ↦ (err e, r)
          | ok t ↦ (ok tt, record r { token = some t })
        ]
      ]

  -- `("Authorization", "Bearer …")`, where there is a token.
  unfoldable pub authorization : Option Text → List (Text × Text)
  authorization none = []
  authorization (some t) = (text "Authorization", text "Bearer " ++ t) ∷ []

  unfoldable pub fetch_manifest : Registry → Text → Text → Result ImageManifest (RegistryError H E)
  unfolding authorization body_text
  fetch_manifest r image tag =
      let path = text "/v2/" ++ (image ++ (text "/manifests/" ++ tag)) in
      let extra =
        (text "Accept", text "application/vnd.docker.distribution.manifest.v2+json")
        ∷ authorization r.token in
      elim (body_text (o.get_with_headers r.host path extra)) [
        | err e ↦ err e
        | ok body ↦ elim (from_json j body) [ err e ↦ err (parse e) | ok m ↦ ok m ]
      ]

  -- The body of a response that passes the digest check.
  unfoldable pub checked_body : Result HttpResponse H → Text → Result (List ℕ) (RegistryError H E)
  checked_body (err e) digest = err (http e)
  checked_body (ok resp) digest = elim (verify_sha256 {H = H} {E = E} resp.body digest) [
    | err e ↦ err e
    | ok _ ↦ ok resp.body
  ]

  -- Without a token the request is `http::get`, which has no headers.
  unfoldable pub pull_layer : Registry → Text → Text → Result (List ℕ) (RegistryError H E)
  unfolding authorization
  pull_layer r image digest =
      let path = text "/v2/" ++ (image ++ (text "/blobs/" ++ digest)) in
      checked_body (o.get_with_headers r.host path (authorization r.token)) digest

  unfoldable pub pull_manifest :
      Registry → Text → Text → Result ImageManifest (RegistryError H E) × Registry
  unfolding authenticate fetch_manifest
  pull_manifest r image tag =
      let (result, r') = authenticate r image in
      elim result [ err e ↦ (err e, r') | ok _ ↦ (fetch_manifest r' image tag, r') ]

  verified-cases :
      (r : Result (Unit {0}) (RegistryError H E))
      → (r ≡ ok tt) ⊎ ((e : RegistryError H E) × (r ≡ err e))
  verified-cases (ok _) = inl refl
  verified-cases (err e) = inr (e, refl)

  checked_body_lem :
      (resp : Result HttpResponse H) (digest : Text) (bytes : List ℕ)
      → checked_body resp digest ≡ ok bytes
      → digest ≡ text "sha256:" ++ hex_encode (sha256 bytes)
  unfolding checked_body
  checked_body_lem (err e) digest bytes h = cc
  checked_body_lem (ok resp) digest bytes h =
      elim (verified-cases (verify_sha256 {H = H} {E = E} resp.body digest)) [
        | inr (e, v) ↦ ground arith
        | inl v ↦
            let same : resp.body ≡ bytes = ground arith in
            (verify_sha256_lem resp.body digest).0 v
            ∙ ap (λ b. text "sha256:" ++ hex_encode (sha256 b)) same
      ]

  -- Whatever a registry answers, the bytes that `pull_layer` returns have the digest that was asked for.
  pub pull_layer_lem :
      (r : Registry) (image digest : Text) (bytes : List ℕ)
      → pull_layer r image digest ≡ ok bytes
      → digest ≡ text "sha256:" ++ hex_encode (sha256 bytes)
  unfolding pull_layer
  pull_layer_lem r image digest bytes h =
      checked_body_lem
        (o.get_with_headers r.host (text "/v2/" ++ (image ++ (text "/blobs/" ++ digest)))
          (authorization r.token))
        digest bytes h
