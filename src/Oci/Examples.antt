-- ===== src/Oci/Examples.antt =====
-- The theorems on kernel/src/oci at small inputs.
use oci_kernel.Prelude.{
  ℕ, ◌^◌, ◌≤◌, ◌<◌, ◌≡◌, ◌↔◌, refl, arith, true, leb, ◌==◌, if◌then◌else◌, Option, none, some, List,
  [], ◌∷◌, ◌++◌, length, replicate, ok,
}
use oci_kernel.Prelude.Order.{text_key, ◌≟◌}
use oci_kernel.Prelude.Text
use oci_kernel.Prelude.Text.{Text, text, text_eq}
use oci_kernel.Oci.Manifest.{Json, ImageManifest, from_json, from_json_lem}
use oci_kernel.Oci.ImageStore
use oci_kernel.Oci.ImageStore.{
  ImageStore, store_layer, get_layer, store_image, get_image, no_colon, get_layer-store_layer,
  store_layer_twice, get_image-store_image,
}
use oci_kernel.Oci.Sha256
use oci_kernel.Oci.Sha256.{sha256, hex_encode}
use oci_kernel.Oci.Sha256.Digest.{verify_sha256, verify_sha256_lem}
use oci_kernel.Oci.Registry
use oci_kernel.Oci.Registry.{Outside, pull_layer, pull_layer_lem}
use oci_kernel.Oci.Layer
use oci_kernel.Oci.Layer.{LayerError, strip_gzip_header, header_end, decompress, layer_limit}
use oci_kernel.Oci.Layer.Envelope.{Header, enveloped, fits_u16, has_no_zero, is_text_field}
use oci_kernel.Oci.Layer.Unwrapped.{strip_gzip_header-enveloped}

-- Values are numbers: 1 is an array of two.
abbrev numbers : Json ℕ ℕ
numbers = record {
  from_str = λ s. ok (length s);
  index = λ v key. if text_eq key (text "layers") then 1 else 300;
  as_str = λ v. some (text "sha256:0");
  as_u64 = λ v. some v;
  as_array = λ v. if v == 1 then some (3 ∷ 4 ∷ []) else none;
}

from_json_lem_example :
    (m : ImageManifest) × (from_json numbers (text "{}") ≡ ok m)
    × (length m.layers ≡ 2)
    × (m.schema_version < 2 ^ 8)
unfolding text_eq
from_json_lem_example = from_json_lem numbers (text "{}") 2 (3 ∷ 4 ∷ []) refl refl

abbrev digest : Text
digest = text "sha256:ab"

get_layer-store_layer_example :
    get_layer (store_layer (store_layer ImageStore.new digest (1 ∷ [])).1 digest (2 ∷ [])).1 digest
    ≡ (if digest ≟ digest
        then elim (get_layer (store_layer ImageStore.new digest (1 ∷ [])).1 digest) [
          | some old ↦ some old
          | none ↦ some (2 ∷ [])
        ]
        else get_layer (store_layer ImageStore.new digest (1 ∷ [])).1 digest)
get_layer-store_layer_example =
    get_layer-store_layer (store_layer ImageStore.new digest (1 ∷ [])).1 digest (2 ∷ []) digest

abbrev manifest : ImageManifest
manifest = record {
  schema_version = 2;
  config = record { media_type = []; digest = digest; size = 1 };
  layers = [];
}

-- A gzip file with a name, "a".
abbrev packed : List ℕ
packed = 0x1f ∷ 0x8b ∷ 8 ∷ 8 ∷ 0 ∷ 0 ∷ 0 ∷ 0 ∷ 0 ∷ 3 ∷ 97 ∷ 0 ∷ 7 ∷ 9 ∷ 11 ∷ replicate 8 0

packed_stream : strip_gzip_header packed ≡ ok (7 ∷ 9 ∷ 11 ∷ [])
unfolding strip_gzip_header header_end Layer.stream_from Layer.skip_if Layer.skip_extra
    Layer.skip_text Layer.has_flag Layer.to_zero
packed_stream = refl

-- A header with every optional field.
abbrev full : Header
full = record {
  method = 8;
  after_flags = (1, 2, 3, 4, 0, 3);
  is_text = true;
  crc = some (0xab, 0xcd);
  extra = some (65 ∷ 66 ∷ 0 ∷ []);
  name = some (text "a.tar");
  comment = some (text "a layer");
}

strip_gzip_header-enveloped_example :
    strip_gzip_header (enveloped full (7 ∷ 9 ∷ 11 ∷ []) (replicate 8 0)) ≡ ok (7 ∷ 9 ∷ 11 ∷ [])
unfolding fits_u16 is_text_field has_no_zero
strip_gzip_header-enveloped_example =
    strip_gzip_header-enveloped full (7 ∷ 9 ∷ 11 ∷ []) (replicate 8 0) refl refl refl refl

-- An inflater of stored data.
abbrev stored : List ℕ → ℕ → Option (List ℕ)
stored bytes limit = if leb (length bytes) limit then some bytes else none

stored_within :
    (bytes out : List ℕ) (limit : ℕ) → stored bytes limit ≡ some out → length out ≤ limit
stored_within bytes out limit h = ground arith

packed-decompress : decompress stored packed (text "layer.tar.gzip") ≡ ok (7 ∷ 9 ∷ 11 ∷ [])
unfolding decompress Layer.inflated Text.has_text Text.starts_with strip_gzip_header header_end
    Layer.stream_from Layer.skip_if Layer.skip_extra Layer.skip_text Layer.has_flag Layer.to_zero
packed-decompress = refl

hello_digest :
    hex_encode (sha256 (text "hello"))
    ≡ text "2cf24dba5fb0a30e26e83b2ac5b9e29e1b161e5c1fa7425e73043362938b9824"
unfolding hex_encode Sha256.hex_digit sha256 Sha256.initial Sha256.padded Sha256.padded_len
    Sha256.be_bytes Sha256.process_blocks Sha256.process_block Sha256.round_constants Sha256.load
    Sha256.extend Sha256.next_word Sha256.compress_rounds Sha256.compress_round Sha256.add_hash
hello_digest = refl

verify_sha256_lem_example :
    (verify_sha256 {H = ℕ} {E = ℕ} (text "hello") (text "sha256:00") ≡ ok tt)
    ↔ (text "sha256:00" ≡ text "sha256:" ++ hex_encode (sha256 (text "hello")))
verify_sha256_lem_example = verify_sha256_lem {H = ℕ} {E = ℕ} (text "hello") (text "sha256:00")

-- A registry that answers "hello" to everything.
abbrev hello : Outside ℕ
hello = record {
  get_with_headers =
      λ host path headers. ok (record { status = 200; headers = []; body = text "hello" });
  from_utf8 = λ bytes. some bytes;
}

abbrev hello_sha256 : Text
hello_sha256 = text "sha256:2cf24dba5fb0a30e26e83b2ac5b9e29e1b161e5c1fa7425e73043362938b9824"

hello_pulled :
    pull_layer hello numbers (Registry.new (text "registry")) (text "web") hello_sha256
    ≡ ok (text "hello")
unfolding Registry.new pull_layer Registry.authorization Registry.checked_body verify_sha256
    Text.strip_prefix text_eq hex_encode Sha256.hex_digit sha256 Sha256.initial Sha256.padded
    Sha256.padded_len Sha256.be_bytes Sha256.process_blocks Sha256.process_block
    Sha256.round_constants Sha256.load Sha256.extend Sha256.next_word Sha256.compress_rounds
    Sha256.compress_round Sha256.add_hash
hello_pulled = refl

pull_layer_lem_example : hello_sha256 ≡ text "sha256:" ++ hex_encode (sha256 (text "hello"))
pull_layer_lem_example =
    pull_layer_lem hello numbers (Registry.new (text "registry")) (text "web") hello_sha256
      (text "hello") hello_pulled
