-- ===== src/Host/Getty/Session/Sound.antt =====
-- What stays true of the getty of kernel/src/host/getty.rs whatever is typed.
use oci_kernel.Prelude.{ℕ, Bool, true, false, not, ◌&&◌, none, some, List, [], ◌∷◌}
use oci_kernel.Prelude.Order.{nat_key}
use oci_kernel.Prelude.Text.{Text}
use oci_kernel.Container.Spec.{ActivePortForward}
use oci_kernel.Container.Store
use oci_kernel.Container.Store.{ContainerStore, ContainerRecord}
use oci_kernel.Host.Getty.State.{Getty}
use oci_kernel.Host.Getty.Path.Segments.{is_canonical}
use oci_kernel.Host.Getty.Images.{has_image, has_volume}

unfoldable pub is_registered : ContainerStore → ℕ → Bool
is_registered store id = elim (Store.get store id) [ none ↦ false | some _ ↦ true ]

-- Every rule leads to a container of the store.
unfoldable pub all_registered : ContainerStore → List ActivePortForward → Bool
unfolding is_registered
all_registered store [] = true
all_registered store (r ∷ rs) = is_registered store r.container_id && all_registered store rs

unfoldable pub distinct_images : List (Text × Text) → Bool
unfolding has_image
distinct_images [] = true
distinct_images ((name, tag) ∷ is) = not (has_image is name tag) && distinct_images is

unfoldable pub distinct_volumes : List Text → Bool
unfolding has_volume
distinct_volumes [] = true
distinct_volumes (v ∷ vs) = not (has_volume vs v) && distinct_volumes vs

-- The directory is a canonical path, every port rule leads to a registered container, no image and no volume is listed twice.
unfoldable pub is_sound : Getty → Bool
unfolding is_canonical all_registered distinct_images distinct_volumes
is_sound g =
    is_canonical g.cwd
    && (all_registered g.store g.forwards
        && (distinct_images g.images && distinct_volumes g.volumes))
