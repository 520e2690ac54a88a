-- ===== src/Host/Getty/Session/Stores.antt =====
-- The changes of the stores of kernel/src/host/getty.rs keep them sound.
use oci_kernel.Prelude.{
  ℕ, ◌≡◌, refl, arith, true, false, inl, inr, Option-cases, List, [], ◌∷◌, push,
}
use oci_kernel.Prelude.Order.{nat_key}
use oci_kernel.Prelude.Text.{Text, text_eq, eq_of_text_eq, text_eq_refl}
use oci_kernel.Prelude.BTreeMap
use oci_kernel.Prelude.BTreeMap.{BTreeMap, get-insert}
use oci_kernel.Container.Spec.{ActivePortForward}
use oci_kernel.Container.Runtime.{ContainerState}
use oci_kernel.Container.Store
use oci_kernel.Container.Store.{ContainerStore, ContainerRecord}
use oci_kernel.Host.Getty.Images.{has_image, is_image, drop_image, has_volume, drop_volume}
use oci_kernel.Host.Getty.Session.Sound.{
  is_registered, all_registered, distinct_images, distinct_volumes,
}

pub all_registered-push :
    (store : ContainerStore) (rs : List ActivePortForward) (r : ActivePortForward)
    → all_registered store rs ≡ true
    → is_registered store r.container_id ≡ true
    → all_registered store (push rs r) ≡ true
unfolding all_registered
all_registered-push store [] r h k = ground arith
all_registered-push store (q ∷ rs) r h k = ground (arith, all_registered-push store rs r)

pub is_registered-register :
    (store : ContainerStore) (id : ℕ) (image : Text) (state : ContainerState) (other : ℕ)
    → is_registered store other ≡ true
    → is_registered (Store.register store id image state) other ≡ true
unfolding is_registered Store.get Store.register
is_registered-register store id image state other h =
    ground
      (arith, get-insert id other (record { id = id; image = image; state = state }) store.entries)

pub is_registered-registered :
    (store : ContainerStore) (id : ℕ) (image : Text) (state : ContainerState)
    → is_registered (Store.register store id image state) id ≡ true
unfolding is_registered Store.get Store.register
is_registered-registered store id image state = ground (
  arith,
  get-insert id id (record { id = id; image = image; state = state }) store.entries,
  nat_key.cmp_refl id,
)

pub all_registered-register :
    (store : ContainerStore) (id : ℕ) (image : Text) (state : ContainerState)
    (rs : List ActivePortForward)
    → all_registered store rs ≡ true
    → all_registered (Store.register store id image state) rs ≡ true
unfolding all_registered
all_registered-register store id image state [] h = refl
all_registered-register store id image state (r ∷ rs) h = ground (
  arith,
  is_registered-register store id image state r.container_id,
  all_registered-register store id image state rs,
)

pub is_registered-get_mut :
    (store : ContainerStore) (id : ℕ) (change : ContainerRecord → ContainerRecord) (other : ℕ)
    → is_registered store other ≡ true
    → is_registered (Store.get_mut store id change) other ≡ true
unfolding is_registered Store.get Store.get_mut
is_registered-get_mut store id change other h =
    elim (Option-cases (BTreeMap.get id store.entries)) [
      | inl e ↦ ground arith
      | inr (r, e) ↦ ground (arith, get-insert id other (change r) store.entries)
    ]

pub all_registered-get_mut :
    (store : ContainerStore) (id : ℕ) (change : ContainerRecord → ContainerRecord)
    (rs : List ActivePortForward)
    → all_registered store rs ≡ true
    → all_registered (Store.get_mut store id change) rs ≡ true
unfolding all_registered
all_registered-get_mut store id change [] h = refl
all_registered-get_mut store id change (r ∷ rs) h = ground (
  arith,
  is_registered-get_mut store id change r.container_id,
  all_registered-get_mut store id change rs,
)

has_image-push :
    (is : List (Text × Text)) (name tag n t : Text)
    → has_image is n t ≡ false
    → is_image n t (name, tag) ≡ false
    → has_image (push is (name, tag)) n t ≡ false
unfolding has_image
has_image-push [] name tag n t h k = ground arith
has_image-push (i ∷ is) name tag n t h k = ground (arith, has_image-push is name tag n t)

is_image_sym :
    (name tag n t : Text) → is_image n t (name, tag) ≡ true → is_image name tag (n, t) ≡ true
unfolding is_image
is_image_sym name tag n t h =
    ground (arith, eq_of_text_eq name n, eq_of_text_eq tag t, text_eq_refl n, text_eq_refl t)

-- An image that is not there is added as a new one.
pub distinct_images-push :
    (is : List (Text × Text)) (name tag : Text)
    → distinct_images is ≡ true
    → has_image is name tag ≡ false
    → distinct_images (push is (name, tag)) ≡ true
unfolding distinct_images has_image
distinct_images-push [] name tag h k = ground arith
distinct_images-push ((n, t) ∷ is) name tag h k = ground (
  arith,
  distinct_images-push is name tag,
  has_image-push is name tag n t,
  is_image_sym name tag n t,
)

has_image-drop_image :
    (is : List (Text × Text)) (name tag n t : Text)
    → has_image is n t ≡ false
    → has_image (drop_image name tag is) n t ≡ false
unfolding has_image drop_image
has_image-drop_image [] name tag n t h = refl
has_image-drop_image (i ∷ is) name tag n t h = ground (arith, has_image-drop_image is name tag n t)

pub distinct_images-drop_image :
    (is : List (Text × Text)) (name tag : Text)
    → distinct_images is ≡ true
    → distinct_images (drop_image name tag is) ≡ true
unfolding distinct_images drop_image
distinct_images-drop_image [] name tag h = refl
distinct_images-drop_image ((n, t) ∷ is) name tag h =
    ground (arith, distinct_images-drop_image is name tag, has_image-drop_image is name tag n t)

has_volume-push :
    (vs : List Text) (name v : Text)
    → has_volume vs v ≡ false
    → text_eq name v ≡ false
    → has_volume (push vs name) v ≡ false
unfolding has_volume
has_volume-push [] name v h k = ground arith
has_volume-push (w ∷ vs) name v h k = ground (arith, has_volume-push vs name v)

pub distinct_volumes-push :
    (vs : List Text) (name : Text)
    → distinct_volumes vs ≡ true
    → has_volume vs name ≡ false
    → distinct_volumes (push vs name) ≡ true
unfolding distinct_volumes has_volume
distinct_volumes-push [] name h k = ground arith
distinct_volumes-push (v ∷ vs) name h k = ground (
  arith,
  distinct_volumes-push vs name,
  has_volume-push vs name v,
  eq_of_text_eq name v,
  text_eq_refl v,
)

has_volume-drop_volume :
    (vs : List Text) (name v : Text)
    → has_volume vs v ≡ false
    → has_volume (drop_volume name vs) v ≡ false
unfolding has_volume drop_volume
has_volume-drop_volume [] name v h = refl
has_volume-drop_volume (w ∷ vs) name v h = ground (arith, has_volume-drop_volume vs name v)

pub distinct_volumes-drop_volume :
    (vs : List Text) (name : Text)
    → distinct_volumes vs ≡ true
    → distinct_volumes (drop_volume name vs) ≡ true
unfolding distinct_volumes drop_volume
distinct_volumes-drop_volume [] name h = refl
distinct_volumes-drop_volume (v ∷ vs) name h =
    ground (arith, distinct_volumes-drop_volume vs name, has_volume-drop_volume vs name v)
