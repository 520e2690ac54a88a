-- ===== src/Fs/Overlay/Files.antt =====
-- Reading, writing and removing files of kernel/src/fs/overlayfs.rs.
use mathlib.Core.List.{reverse, reverse-cons}
use oci_kernel.Prelude.{
  ℕ, ◌≡◌, refl, ap, true, false, Bool-cases, Option-cases, inl, inr, Option, none, some, List, [],
  ◌∷◌, ◌++◌, arith, if◌then◌else◌, Result, ok, err, ◌||◌, ◌++◌,
}
use oci_kernel.Prelude.Order.{text_key, ◌≟◌, eq_of_≟}
use oci_kernel.Prelude.Text.{Text}
use oci_kernel.Prelude.BTreeMap
use oci_kernel.Prelude.BTreeMap.{get-insert, get-remove, contains_key-eq-get}
use oci_kernel.Fs.MemLayer
use oci_kernel.Fs.MemLayer.{MemLayer}
use oci_kernel.Fs.UpperLayer
use oci_kernel.Fs.Overlay.{
  FsError, not_found, permission_denied, OverlayMount, search, read_lower, read, copy_up, write,
  exists_lower, remove, exists, upper_exists,
}

abbrev pub or_lower : Option (List ℕ) → Option (List ℕ) → Result (List ℕ) FsError
or_lower (some bytes) low = ok bytes
or_lower none (some bytes) = ok bytes
or_lower none none = err not_found

module _ (m : OverlayMount) (path : Text) where
  -- The upper file, else the one of the topmost lower layer that has it.
  read_lem : read m path ≡ or_lower (BTreeMap.get path m.upper.files) (read_lower m path)
  unfolding read read_lower UpperLayer.read
  read_lem = ground arith

  copy_up-get :
      (other : Text)
      → (other ≟ path) ≡ false
      → BTreeMap.get other (copy_up m path).files ≡ BTreeMap.get other m.upper.files
  unfolding copy_up UpperLayer.write
  copy_up-get other h = elim (Option-cases (read_lower m path)) [
    | inl e ↦ ground arith
    | inr (bytes, e) ↦ ground (arith, get-insert path other bytes m.upper.files)
  ]

  -- After a write the path reads as what was written, and every other path as before.
  pub read-write :
      (bytes : List ℕ) (other : Text)
      → read (write m path bytes).1 other ≡ (if other ≟ path then ok bytes else read m other)
  unfolding write read search UpperLayer.write UpperLayer.read
  read-write bytes other =
      let g = get-insert path other bytes (copy_up m path).files in
      let c = copy_up-get other in ground arith

  exists_lower-append :
      (ls ms : List MemLayer)
      → exists_lower (ls ++ ms) path ≡ (exists_lower ms path || exists_lower ls path)
  unfolding exists_lower
  exists_lower-append [] ms = ground arith
  exists_lower-append (l ∷ ls) ms = ground (arith, exists_lower-append ls ms)

  exists_lower-reverse :
      (ls : List MemLayer) → exists_lower (reverse ls) path ≡ exists_lower ls path
  unfolding exists_lower
  exists_lower-reverse [] = refl
  exists_lower-reverse (l ∷ ls) =
      let e = exists_lower-append (reverse ls) (l ∷ []) in
      let h = exists_lower-reverse ls in
      let r = ap (λ x. exists_lower x path) (reverse-cons l ls) in ground arith

  exists_lower-search :
      (ls : List MemLayer)
      → exists_lower ls path ≡ elim (search path ls) [ none ↦ false | some _ ↦ true ]
  unfolding exists_lower search MemLayer.exists MemLayer.read
  exists_lower-search [] = refl
  exists_lower-search (l ∷ ls) =
      ground (arith, exists_lower-search ls, contains_key-eq-get path l.files)

  -- `exists` tells whether `read` gives bytes.
  pub exists-read : exists m path ≡ elim (read m path) [ ok _ ↦ true | err _ ↦ false ]
  unfolding exists read UpperLayer.exists UpperLayer.read
  exists-read =
      let s = exists_lower-search (reverse m.lower) in
      let r = exists_lower-reverse m.lower in ground (arith, contains_key-eq-get path m.upper.files)

  -- The result of `remove` tells where the path was.
  pub remove_lem : (remove m path).0 ≡ (
      if upper_exists m path
      then ok tt
      else if exists m path
      then err permission_denied
      else err not_found)
  unfolding remove exists upper_exists UpperLayer.exists
  remove_lem = ground (arith, contains_key-eq-get path m.upper.files)

  -- Taking a file out shows the file of that path in the lower layers, and leaves every other path as it was; a refused removal leaves every path as it was.
  pub read-remove :
      (other : Text)
      → read (remove m path).1 other
        ≡ (if other ≟ path then or_lower none (read_lower m path) else read m other)
  unfolding remove read read_lower UpperLayer.read
  read-remove other = elim (Bool-cases (other ≟ path)) [
    | inl e ↦
        let p = eq_of_≟ other path e in
        let l = ap (λ x. search x (reverse m.lower)) p in
        let u = ap (λ x. BTreeMap.get x m.upper.files) p in
        ground (arith, get-remove path other m.upper.files)
    | inr e ↦ ground (arith, get-remove path other m.upper.files)
  ]
