-- ===== src/Oci/Manifest.antt =====
-- kernel/src/oci/manifest.rs: the manifest of an image. `serde_json` is a parameter: its values, and
-- the readers of them that the code calls.
use oci_kernel.Prelude.{
  ℕ, suc, ◌<◌, ◌%◌, ◌^◌, ◌≡◌, refl, ap, arith, Option, none, some, List, [], ◌∷◌, length, Result,
  ok, err,
}
use oci_kernel.Prelude.Text.{Text, text}

pub record LayerDescriptor : Type 0 where
  pub media_type : Text
  pub digest : Text
  pub size : ℕ

pub record ImageManifest : Type 0 where
  pub schema_version : ℕ
  pub config : LayerDescriptor
  pub layers : List LayerDescriptor

pub data ParseError (E : Type 0) : Type 0 where
  json : E → ParseError E
  missing_field : ParseError E

-- The part of `serde_json` in use: `from_str`, `v[key]`, `as_str`, `as_u64` and `as_array`.
pub record Json (V E : Type 0) : Type 0 where
  pub from_str : Text → Result V E
  pub index : V → Text → V
  pub as_str : V → Option Text
  pub as_u64 : V → Option ℕ
  pub as_array : V → Option (List V)

unfoldable pub unwrap_or {ℓ} : {A : Type ℓ} → A → Option A → A
unwrap_or d none = d
unwrap_or d (some x) = x

module _ {V E : Type 0} (j : Json V E) where
  unfoldable pub descriptor : V → LayerDescriptor
  unfolding unwrap_or
  descriptor v = record {
    media_type = unwrap_or [] (j.as_str (j.index v (text "mediaType")));
    digest = unwrap_or [] (j.as_str (j.index v (text "digest")));
    size = unwrap_or 0 (j.as_u64 (j.index v (text "size")));
  }

  unfoldable pub descriptors : List V → List LayerDescriptor
  unfolding descriptor
  descriptors [] = []
  descriptors (v ∷ vs) = descriptor v ∷ descriptors vs

  -- `as u8` keeps the low eight bits.
  unfoldable pub of_value : V → Result ImageManifest (ParseError E)
  unfolding unwrap_or descriptors
  of_value v = elim (j.as_array (j.index v (text "layers"))) [
    | none ↦ err missing_field
    | some vs ↦ ok (record {
      schema_version = unwrap_or 2 (j.as_u64 (j.index v (text "schemaVersion"))) % 2 ^ 8;
      config = descriptor (j.index v (text "config"));
      layers = descriptors vs;
    })
  ]

  unfoldable pub from_json : Text → Result ImageManifest (ParseError E)
  unfolding of_value
  from_json s = elim (j.from_str s) [ err e ↦ err (json e) | ok v ↦ of_value v ]

  length-descriptors : (vs : List V) → length (descriptors vs) ≡ length vs
  unfolding descriptors
  length-descriptors [] = refl
  length-descriptors (v ∷ vs) = ap (λ n. suc n) (length-descriptors vs)

  -- A text that `serde_json` reads, with an array of layers, gives a manifest with a descriptor for each layer, and a schema version that fits in a byte.
  pub from_json_lem :
      (s : Text) (v : V) (vs : List V)
      → j.from_str s ≡ ok v
      → j.as_array (j.index v (text "layers")) ≡ some vs
      → (m : ImageManifest) × (from_json s ≡ ok m)
        × (length m.layers ≡ length vs)
        × (m.schema_version < 2 ^ 8)
  unfolding from_json of_value
  from_json_lem s v vs h a = (
    record {
      schema_version = unwrap_or 2 (j.as_u64 (j.index v (text "schemaVersion"))) % 2 ^ 8;
      config = descriptor (j.index v (text "config"));
      layers = descriptors vs;
    },
    ground arith,
    length-descriptors vs,
    omega arith,
  )
