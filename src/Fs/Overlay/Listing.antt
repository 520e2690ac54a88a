-- ===== src/Fs/Overlay/Listing.antt =====
-- Directories of kernel/src/fs/overlayfs.rs: `list` and `is_dir`.
use oci_kernel.Prelude.{
  ℕ, ◌≡◌, Bool, true, false, inl, inr, none, some, List, [], ◌∷◌, arith, if◌then◌else◌, ◌||◌, ◌++◌,
  any, Option-cases,
}
use oci_kernel.Prelude.Order.{text_key, ◌≟◌}
use oci_kernel.Prelude.Text.{Text, text, text_eq, starts_with, starts_with-append}
use oci_kernel.Prelude.BTreeMap
use oci_kernel.Prelude.BTreeMap.{BTreeMap}
use oci_kernel.Prelude.BTreeSet
use oci_kernel.Prelude.BTreeSet.{contains-insert}
use oci_kernel.Fs.UpperLayer
use oci_kernel.Fs.Overlay.{
  OverlayMount, write, copy_up, all_paths, with_slash, is_dir, list, entry, gather,
}

-- The prefix that `list` looks for.
abbrev pub dir_prefix : Text → Text
dir_prefix dir = if text_eq dir (text "/") then text "/" else with_slash dir

-- The test that a path is shown as this name.
abbrev pub shows : Text → List Text → Text → Text → Bool
shows prefix all name path = elim (entry prefix all path) [ none ↦ false | some n ↦ name ≟ n ]

gather_lem :
    (prefix : Text) (all : List Text) (name : Text) (paths seen : List Text)
    → BTreeSet.contains name (gather prefix all paths seen)
      ≡ (any (λ p. shows prefix all name p) paths || BTreeSet.contains name seen)
unfolding gather
gather_lem prefix all name [] seen = ground arith
gather_lem prefix all name (path ∷ paths) seen = elim (Option-cases (entry prefix all path)) [
  | inl e ↦ ground (arith, gather_lem prefix all name paths seen)
  | inr (n, e) ↦ ground (
    arith,
    gather_lem prefix all name paths (BTreeSet.insert n seen),
    contains-insert n name seen,
  )
]

-- A name is in the listing of a directory exactly when some path of some layer shows as it.
pub list_lem :
    (m : OverlayMount) (dir name : Text)
    → BTreeSet.contains name (list m dir)
      ≡ any (λ p. shows (dir_prefix dir) (all_paths m) name p) (all_paths m)
unfolding list BTreeSet.contains
list_lem m dir name =
    let g = gather_lem (dir_prefix dir) (all_paths m) name (all_paths m) [] in ground arith

any-insert :
    (p : Text → Bool) (k : Text) (v : List ℕ) (m : BTreeMap Text (List ℕ))
    → p k ≡ true
    → any p (BTreeMap.keys (BTreeMap.insert k v m)) ≡ true
unfolding BTreeMap.keys BTreeMap.insert
any-insert p k v [] h = ground arith
any-insert p k v ((j, w) ∷ m) h = ground (arith, any-insert p k v m h)

-- A file written below a path makes that path a directory.
pub is_dir-write :
    (m : OverlayMount) (dir name : Text) (bytes : List ℕ)
    → is_dir (write m (with_slash dir ++ name) bytes).1 dir ≡ true
unfolding is_dir write UpperLayer.write
is_dir-write m dir name bytes =
    let path = with_slash dir ++ name in
    let s = starts_with-append (with_slash dir) name in
    let a = any-insert (λ k. starts_with (with_slash dir) k) path bytes (copy_up m path).files s in
    ground arith
