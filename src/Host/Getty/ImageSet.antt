-- ===== src/Host/Getty/ImageSet.antt =====
-- The list of images of kernel/src/host/getty.rs as a set: the order and the messages are forgotten.
use oci_kernel.Prelude.{◌≡◌, arith, Bool, true, false, not, ◌&&◌, ◌||◌, List, [], ◌∷◌, push}
use oci_kernel.Prelude.Text.{Text, text_eq_refl, eq_of_text_eq}
use oci_kernel.Host.Getty.State.{Getty, println}
use oci_kernel.Host.Getty.Images
use oci_kernel.Host.Getty.Images.{has_image, is_image, drop_image}

-- A set of images, with one put in and one taken out.
abbrev pub ImageSet : Type 0
ImageSet = Text → Text → Bool

unfoldable pub insert : ImageSet → Text → Text → ImageSet
insert s name tag = λ n t. is_image n t (name, tag) || s n t

unfoldable pub erase : ImageSet → Text → Text → ImageSet
erase s name tag = λ n t. not (is_image n t (name, tag)) && s n t

-- The set that the list stands for.
unfoldable pub image_set : Getty → ImageSet
image_set g = λ n t. has_image g.images n t

has_image-push :
    (is : List (Text × Text)) (name tag n t : Text)
    → has_image (push is (name, tag)) n t ≡ (is_image n t (name, tag) || has_image is n t)
unfolding has_image
has_image-push [] name tag n t = ground arith
has_image-push (i ∷ is) name tag n t = ground (arith, has_image-push is name tag n t)

-- Two images are the same where a third is both.
is_image_same :
    (name tag n t : Text) (i : Text × Text)
    → is_image name tag i ≡ true
    → is_image n t i ≡ is_image n t (name, tag)
unfolding is_image
is_image_same name tag n t (a, b) h = ground (arith, eq_of_text_eq a name, eq_of_text_eq b tag)

is_image_self :
    (name tag n t : Text) → is_image n t (name, tag) ≡ true → is_image name tag (n, t) ≡ true
unfolding is_image
is_image_self name tag n t h =
    ground (arith, eq_of_text_eq name n, eq_of_text_eq tag t, text_eq_refl n, text_eq_refl t)

is_image_other :
    (name tag n t : Text) (i : Text × Text)
    → is_image name tag i ≡ false
    → is_image n t i ≡ true
    → is_image n t (name, tag) ≡ false
unfolding is_image
is_image_other name tag n t (a, b) h k = ground (
  arith,
  eq_of_text_eq a n,
  eq_of_text_eq b t,
  eq_of_text_eq name n,
  eq_of_text_eq tag t,
  text_eq_refl n,
  text_eq_refl t,
)

has_image-drop_image :
    (is : List (Text × Text)) (name tag n t : Text)
    → has_image (drop_image name tag is) n t ≡ (not (is_image n t (name, tag)) && has_image is n t)
unfolding has_image drop_image
has_image-drop_image [] name tag n t = ground arith
has_image-drop_image (i ∷ is) name tag n t = ground (
  arith,
  has_image-drop_image is name tag n t,
  is_image_same name tag n t i,
  is_image_other name tag n t i,
)

has_image_same :
    (is : List (Text × Text)) (name tag n t : Text)
    → is_image n t (name, tag) ≡ true
    → has_image is n t ≡ has_image is name tag
unfolding is_image
has_image_same is name tag n t h = ground (arith, eq_of_text_eq name n, eq_of_text_eq tag t)

-- The commands on images implement a set: `image pull` puts the image in and `image rm` takes it out, and no other image is touched.
pub image_set-pull_remove :
    (g : Getty) (name tag n t : Text)
    → (image_set (Images.image_pull g name tag) n t ≡ insert (image_set g) name tag n t)
      × (image_set (Images.image_remove g name tag) n t ≡ erase (image_set g) name tag n t)
unfolding image_set insert erase Images.image_pull Images.image_remove println
image_set-pull_remove g name tag n t = (
  ground (arith, has_image-push g.images name tag n t, has_image_same g.images name tag n t),
  ground (arith, has_image-drop_image g.images name tag n t),
)
