-- ===== src/Fs/Overlay.antt =====
-- kernel/src/fs/overlayfs.rs: the overlay mount, with the errors of kernel/src/fs/vfs.rs. An `Arc`
-- of a layer is the layer, since nothing changes it after the mount is made.
pub mod Files
pub mod Listing
pub mod Root
pub mod Examples
use mathlib.Core.List.{reverse}
use oci_kernel.Prelude.{
  ℕ, Bool, true, false, not, ◌||◌, ◌&&◌, Option, none, some, List, [], ◌∷◌, ◌++◌, ◌==◌,
  if◌then◌else◌, any, Result, ok, err,
}
use oci_kernel.Prelude.Order.{text_key}
use oci_kernel.Prelude.Text.{
  Text, text, text_eq, is_empty, trim_end_matches, strip_prefix, starts_with, before_first,
}
use oci_kernel.Prelude.BTreeMap
use oci_kernel.Prelude.BTreeSet
use oci_kernel.Fs.MemLayer
use oci_kernel.Fs.MemLayer.{MemLayer}
use oci_kernel.Fs.UpperLayer
use oci_kernel.Fs.UpperLayer.{UpperLayer}

pub data FsError : Type 0 where
  not_found permission_denied already_exists : FsError

-- The lower layers stand bottom first.
pub record OverlayMount : Type 0 where
  pub lower : List MemLayer
  pub upper : UpperLayer

unfoldable pub new : List MemLayer → OverlayMount
new lower = record { lower = lower; upper = UpperLayer.new }

-- The first layer that has the path.
unfoldable pub search : Text → List MemLayer → Option (List ℕ)
search path [] = none
search path (layer ∷ layers) = elim (MemLayer.read layer path) [
  | some bytes ↦ some bytes
  | none ↦ search path layers
]

-- `self.lower.iter().rev()`: top to bottom.
unfoldable pub read_lower : OverlayMount → Text → Option (List ℕ)
unfolding search
read_lower m path = search path (reverse m.lower)

unfoldable pub read : OverlayMount → Text → Result (List ℕ) FsError
unfolding read_lower
read m path = elim (UpperLayer.read m.upper path) [
  | some bytes ↦ ok bytes
  | none ↦ elim (search path (reverse m.lower)) [ some bytes ↦ ok bytes | none ↦ err not_found ]
]

-- The copy of the lower file that a first write makes before it.
unfoldable pub copy_up : OverlayMount → Text → UpperLayer
copy_up m path =
    if not (UpperLayer.exists m.upper path)
    then elim (read_lower m path) [
      | some existing ↦ UpperLayer.write m.upper path existing
      | none ↦ m.upper
    ]
    else m.upper

unfoldable pub write : OverlayMount → Text → List ℕ → Result (Unit {0}) FsError × OverlayMount
unfolding copy_up
write m path bytes = (ok tt, record m { upper = UpperLayer.write (copy_up m path) path bytes })

unfoldable pub exists_lower : List MemLayer → Text → Bool
exists_lower layers path = any (λ l. MemLayer.exists l path) layers

unfoldable pub remove : OverlayMount → Text → Result (Unit {0}) FsError × OverlayMount
unfolding exists_lower
remove m path = elim (BTreeMap.get path m.upper.files) [
  | some _ ↦ (ok tt, record m { upper = record { files = BTreeMap.remove path m.upper.files } })
  | none ↦ if exists_lower m.lower path then (err permission_denied, m) else (err not_found, m)
]

unfoldable pub exists : OverlayMount → Text → Bool
unfolding exists_lower
exists m path = if UpperLayer.exists m.upper path then true else exists_lower m.lower path

unfoldable pub upper_exists : OverlayMount → Text → Bool
upper_exists m path = UpperLayer.exists m.upper path

abbrev pub slash : ℕ
slash = b'/'

-- `format!("{}/", path.trim_end_matches('/'))`
unfoldable pub with_slash : Text → Text
with_slash path = trim_end_matches slash path ++ (slash ∷ [])

unfoldable pub is_dir : OverlayMount → Text → Bool
unfolding with_slash
is_dir m path =
    if text_eq path (text "/")
    then true
    else let prefix = with_slash path in
      any (λ k. starts_with prefix k) (BTreeMap.keys m.upper.files)
      || any (λ (l : MemLayer). any (λ k. starts_with prefix k) (BTreeMap.keys l.files)) m.lower

unfoldable pub lower_paths : List MemLayer → List Text
lower_paths [] = []
lower_paths (l ∷ ls) = BTreeMap.keys l.files ++ lower_paths ls

-- Every path of every layer.
unfoldable pub all_paths : OverlayMount → List Text
unfolding lower_paths
all_paths m = BTreeMap.keys m.upper.files ++ lower_paths m.lower

-- What one path adds to the listing: nothing if it is not below the directory or is hidden.
module _ (prefix : Text) (all : List Text) where
  unfoldable pub label : Text → Text
  label component =
      if any (λ p. starts_with (prefix ++ (component ++ (slash ∷ []))) p) all
      then component ++ (slash ∷ [])
      else component

  unfoldable pub component_entry : Text → Option Text
  unfolding label
  component_entry component = if is_empty component then none else some (label component)

  unfoldable pub entry : Text → Option Text
  unfolding component_entry
  entry path = elim (strip_prefix prefix path) [
    | none ↦ none
    | some rel ↦
        if is_empty rel
        then none
        else if starts_with (text ".") rel
        then none
        else component_entry (before_first slash rel)
  ]

  -- The loop, over the paths that are left.
  unfoldable pub gather : List Text → List Text → List Text
  unfolding entry
  gather [] seen = seen
  gather (path ∷ paths) seen =
      gather paths (elim (entry path) [ none ↦ seen | some name ↦ BTreeSet.insert name seen ])

unfoldable pub list : OverlayMount → Text → List Text
unfolding gather with_slash
list m dir =
    let prefix = if text_eq dir (text "/") then text "/" else with_slash dir in
    gather prefix (all_paths m) (all_paths m) []
