-- ===== src/Oci/ImageStore.antt =====
-- kernel/src/oci/image_store.rs: layers by digest, manifests by "name:tag". Layer data is a list of
-- bytes.
use oci_kernel.Prelude.{
  ℕ, ◌≡◌, refl, ap, ◌∙◌, not, ◌==◌, ◌&&◌, arith, Bool, Bool-cases, true, if◌then◌else◌, Option,
  none, some, inl, inr, List, [], ◌∷◌, ◌++◌, length, Result, ok,
}
use oci_kernel.Prelude.Order.{text_key, ◌≟◌, ≟_refl, eq_of_≟}
use oci_kernel.Prelude.Text.{Text}
use oci_kernel.Prelude.BTreeMap
use oci_kernel.Prelude.BTreeMap.{BTreeMap, get-insert, contains_key-eq-get}
use oci_kernel.Oci.Manifest.{ImageManifest}

pub record LayerEntry : Type 0 where
  pub digest : Text
  pub size : ℕ
  pub data_bytes : List ℕ

pub record ImageStore : Type 0 where
  pub layers : BTreeMap Text LayerEntry
  pub images : BTreeMap Text ImageManifest

pub data StoreError : Type 0 where
  out_of_memory : StoreError

unfoldable pub new : ImageStore
new = record { layers = []; images = [] }

unfoldable pub has_layer : ImageStore → Text → Bool
has_layer s digest = BTreeMap.contains_key digest s.layers

unfoldable pub store_layer : ImageStore → Text → List ℕ → Result (Unit {0}) StoreError × ImageStore
unfolding has_layer
store_layer s digest bytes = if has_layer s digest then (ok tt, s) else (
  ok tt,
  record s {
    layers =
        BTreeMap.insert digest (record { digest = digest; size = length bytes; data_bytes = bytes })
          s.layers;
  },
)

unfoldable pub get_layer : ImageStore → Text → Option (List ℕ)
get_layer s digest = elim (BTreeMap.get digest s.layers) [
  | none ↦ none
  | some e ↦ some e.data_bytes
]

unfoldable pub layer_count : ImageStore → ℕ
layer_count s = length s.layers

-- `format!("{}:{}", name, tag)`
unfoldable pub image_key : Text → Text → Text
image_key name tag = name ++ (b':' ∷ tag)

unfoldable pub store_image : ImageStore → Text → Text → ImageManifest → ImageStore
unfolding image_key
store_image s name tag manifest = record s {
  images = BTreeMap.insert (image_key name tag) manifest s.images;
}

unfoldable pub get_image : ImageStore → Text → Text → Option ImageManifest
unfolding image_key
get_image s name tag = BTreeMap.get (image_key name tag) s.images

module _ (s : ImageStore) (digest : Text) (bytes : List ℕ) where
  -- After a layer is stored its digest gives the first bytes that were stored under it, and every other digest what it gave before.
  pub get_layer-store_layer :
      (other : Text)
      → get_layer (store_layer s digest bytes).1 other ≡ (
          if other ≟ digest
          then elim (get_layer s digest) [ some old ↦ some old | none ↦ some bytes ]
          else get_layer s other)
  unfolding get_layer store_layer has_layer
  get_layer-store_layer other = elim (Bool-cases (other ≟ digest)) [
    | inl e ↦
        let p = ap (λ d. BTreeMap.get d s.layers) (eq_of_≟ other digest e) in
        ground (
          arith,
          get-insert digest other
              (record { digest = digest; size = length bytes; data_bytes = bytes }) s.layers,
          contains_key-eq-get digest s.layers,
        )
    | inr e ↦ ground (
      arith,
      get-insert digest other (record { digest = digest; size = length bytes; data_bytes = bytes })
          s.layers,
    )
  ]

  -- Storing the same digest a second time, with whatever bytes, changes nothing.
  pub store_layer_twice :
      (again : List ℕ)
      → (store_layer (store_layer s digest bytes).1 digest again).1 ≡ (store_layer s digest bytes).1
  unfolding store_layer has_layer
  store_layer_twice again =
      let e : LayerEntry = record { digest = digest; size = length bytes; data_bytes = bytes } in
      ground (
        arith,
        get-insert digest digest e s.layers,
        ≟_refl digest,
        contains_key-eq-get digest (BTreeMap.insert digest e s.layers),
      )

unfoldable pub no_colon : Text → Bool
no_colon [] = true
no_colon (c ∷ s) = not (c == b':') && no_colon s

-- Names without a colon and their tags can be read off the key.
image_key-injective :
    (name name' tag tag' : Text)
    → no_colon name ≡ true
    → no_colon name' ≡ true
    → image_key name tag ≡ image_key name' tag'
    → (name ≡ name') × (tag ≡ tag')
unfolding no_colon image_key
image_key-injective [] [] tag tag' n n' e = (refl, ground arith)
image_key-injective [] (d ∷ name') tag tag' n n' e = ground arith
image_key-injective (c ∷ name) [] tag tag' n n' e = ground arith
image_key-injective (c ∷ name) (d ∷ name') tag tag' n n' e =
    ground (arith, image_key-injective name name' tag tag')

-- For names without a colon, an image that is stored is found under its name and tag alone.
pub get_image-store_image :
    (s : ImageStore) (name tag name' tag' : Text) (manifest : ImageManifest)
    → no_colon name ≡ true
    → no_colon name' ≡ true
    → get_image (store_image s name tag manifest) name' tag'
      ≡ (if (name' ≟ name) && (tag' ≟ tag) then some manifest else get_image s name' tag')
unfolding get_image store_image
get_image-store_image s name tag name' tag' manifest n n' =
    let g = get-insert (image_key name tag) (image_key name' tag') manifest s.images in
    elim (Bool-cases (image_key name' tag' ≟ image_key name tag)) [
      | inl e ↦
          let (p, q) =
            image_key-injective name' name tag' tag n' n
              (eq_of_≟ (image_key name' tag') (image_key name tag) e) in
          let a : (name' ≟ name) ≡ true = rw p (≟_refl name) in
          let b : (tag' ≟ tag) ≡ true = rw q (≟_refl tag) in ground arith
      | inr e ↦
          let k = λ (p : name' ≡ name) (q : tag' ≡ tag).
            ap (λ (n : Text). image_key n tag') p ∙ ap (λ (t : Text). image_key name t) q in
          elim (Bool-cases (name' ≟ name)) [
            | inr x ↦ ground arith
            | inl x ↦ elim (Bool-cases (tag' ≟ tag)) [
              | inr y ↦ ground arith
              | inl y ↦
                  let z = k (eq_of_≟ name' name x) (eq_of_≟ tag' tag y) in
                  let r = ≟_refl (image_key name tag) in
                  let w = ap (λ (t : Text). t ≟ image_key name tag) z in ground arith
            ]
          ]
    ]
