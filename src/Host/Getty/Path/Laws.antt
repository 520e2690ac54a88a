-- ===== src/Host/Getty/Path/Laws.antt =====
-- What `resolve_path` of kernel/src/host/getty.rs gives, and how two paths compose.
use mathlib.Core.List.{append_assoc}
use oci_kernel.Prelude.{ℕ, ◌≡◌, refl, sym, ap, ◌∙◌, arith, true, false, ◌≢◌, List, [], ◌∷◌, ◌++◌}
use oci_kernel.Prelude.Text.{Text, text, is_empty, starts_with, split, prepend}
use oci_kernel.Prelude.Words.{join}
use oci_kernel.Host.Getty.Path.{add_segment, collapse, render, raw_path, resolve_path}
use oci_kernel.Host.Getty.Path.Segments.{
  slash, is_name, are_names, is_canonical, split-all_lack, collapse-are_names, collapse-names,
  collapse-append, split_nonempty, split-append, split-join,
}

split-slash : (s : Text) → split slash (slash ∷ s) ≡ [] ∷ split slash s
unfolding split
split-slash s = refl

-- An empty segment changes nothing.
collapse-empty : (segs : List Text) → collapse [] ([] ∷ segs) ≡ collapse [] segs
unfolding collapse add_segment is_empty
collapse-empty segs = refl

join-ne-nil :
    (p : Text) (ps : List Text) → are_names (p ∷ ps) ≡ true → join (text "/") (p ∷ ps) ≢ []
unfolding join are_names is_name is_empty
join-ne-nil [] ps h = absurd (ground arith)
join-ne-nil (c ∷ p) [] h = λ e. cc
join-ne-nil (c ∷ p) (q ∷ ps) h = λ e. cc

is_canonical_cons : (s : Text) → s ≢ [] → is_canonical (slash ∷ s) ≡ are_names (split slash s)
unfolding is_canonical
is_canonical_cons [] h = absurd (h refl)
is_canonical_cons (d ∷ s) h = ground arith

collapse-split-render :
    (ps : List Text) → are_names ps ≡ true → collapse [] (split slash (render ps)) ≡ ps
unfolding render
collapse-split-render [] h =
    unfold collapse in unfold add_segment in unfold split in unfold is_empty in refl
collapse-split-render (p ∷ ps) h =
    ap (collapse []) (split-slash (join (text "/") (p ∷ ps)))
    ∙ collapse-empty (split slash (join (text "/") (p ∷ ps)))
    ∙ ap (collapse []) (split-join p ps h)
    ∙ collapse-names [] (p ∷ ps) h

is_canonical-render : (ps : List Text) → are_names ps ≡ true → is_canonical (render ps) ≡ true
unfolding render
is_canonical-render [] h = unfold is_canonical in refl
is_canonical-render (p ∷ ps) h =
    is_canonical_cons (join (text "/") (p ∷ ps)) (join-ne-nil p ps h)
    ∙ ap are_names (split-join p ps h)
    ∙ h

join-prepend :
    (c : ℕ) (ss : List Text) → ss ≢ [] → join (text "/") (prepend c ss) ≡ c ∷ join (text "/") ss
unfolding join
join-prepend c [] h = absurd (h refl)
join-prepend c (s ∷ []) h = refl
join-prepend c (s ∷ t ∷ ss) h = refl

join_empty : (ss : List Text) → ss ≢ [] → join (text "/") ([] ∷ ss) ≡ slash ∷ join (text "/") ss
unfolding join
join_empty [] h = absurd (h refl)
join_empty (s ∷ ss) h = refl

join-split : (s : Text) → join (text "/") (split slash s) ≡ s
unfolding split
join-split [] = unfold join in refl
join-split (c ∷ s) = ground (
  arith,
  join-split s,
  split_nonempty slash s,
  join-prepend c (split slash s),
  join_empty (split slash s),
)

render_nonempty : (ps : List Text) → ps ≢ [] → render ps ≡ slash ∷ join (text "/") ps
unfolding render
render_nonempty [] h = absurd (h refl)
render_nonempty (p ∷ ps) h = refl

-- A canonical path is the rendering of its names.
render_canonical :
    (s : Text)
    → are_names (split slash s) ≡ true
    → render (collapse [] (split slash (slash ∷ s))) ≡ slash ∷ s
render_canonical s h =
    ap (λ ss. render (collapse [] ss)) (split-slash s)
    ∙ ap render (collapse-empty (split slash s) ∙ collapse-names [] (split slash s) h)
    ∙ render_nonempty (split slash s) (split_nonempty slash s)
    ∙ ap (λ t. slash ∷ t) (join-split s)

render_root : render (collapse [] (split slash (slash ∷ []))) ≡ slash ∷ []
unfolding render collapse add_segment split is_empty
render_root = refl

render-split : (s : Text) → is_canonical s ≡ true → render (collapse [] (split slash s)) ≡ s
unfolding is_canonical
render-split [] h = cc
render-split (c ∷ []) h = ground (arith, render_root)
render-split (c ∷ d ∷ s) h = ground (arith, render_canonical (d ∷ s))

raw_path_absolute : (cwd path : Text) → is_canonical path ≡ true → raw_path cwd path ≡ path
unfolding raw_path is_canonical starts_with
raw_path_absolute cwd [] h = cc
raw_path_absolute cwd (c ∷ []) h = ground arith
raw_path_absolute cwd (c ∷ d ∷ s) h = ground arith

raw_path-append :
    (cwd p q : Text) → p ≢ [] → raw_path cwd (p ++ (slash ∷ q)) ≡ raw_path cwd p ++ (slash ∷ q)
unfolding raw_path starts_with
raw_path-append cwd [] q h = absurd (h refl)
raw_path-append cwd (c ∷ p) q h = ground (arith, append_assoc cwd (slash ∷ c ∷ p) (slash ∷ q))

raw_path_relative :
    (cwd path : Text)
    → starts_with (text "/") path ≡ false
    → raw_path cwd path ≡ cwd ++ (slash ∷ path)
unfolding raw_path
raw_path_relative cwd path h = ground arith

names_of-are_names : (raw : Text) → are_names (collapse [] (split slash raw)) ≡ true
unfolding are_names
names_of-are_names raw = collapse-are_names [] (split slash raw) refl (split-all_lack raw)

-- The resolved path is canonical: the root, or names without `.` and `..` and without empty segments, each with a slash before it.
pub resolve_path-IsCanonical : (cwd path : Text) → is_canonical (resolve_path cwd path) ≡ true
unfolding resolve_path
resolve_path-IsCanonical cwd path =
    is_canonical-render (collapse [] (split slash (raw_path cwd path)))
      (names_of-are_names (raw_path cwd path))

-- A canonical path resolves to itself, from every directory.
pub resolve_path_canonical :
    (cwd path : Text) → is_canonical path ≡ true → resolve_path cwd path ≡ path
unfolding resolve_path
resolve_path_canonical cwd path h =
    ap (λ raw. render (collapse [] (split slash raw))) (raw_path_absolute cwd path h)
    ∙ render-split path h

collapse-split-append :
    (a b : Text)
    → collapse [] (split slash (a ++ (slash ∷ b)))
      ≡ collapse (collapse [] (split slash a)) (split slash b)
collapse-split-append a b =
    ap (collapse []) (split-append a b) ∙ collapse-append [] (split slash a) (split slash b)

-- Resolving `p/q`, where `p` is not empty and `q` is relative, is resolving `q` from the directory that `p` resolves to.
pub resolve_path-compose :
    (cwd p q : Text)
    → p ≢ []
    → starts_with (text "/") q ≡ false
    → resolve_path cwd (p ++ (b'/' ∷ q)) ≡ resolve_path (resolve_path cwd p) q
unfolding resolve_path
resolve_path-compose cwd p q n h =
    let names = collapse [] (split slash (raw_path cwd p)) in
    ap (λ raw. render (collapse [] (split slash raw))) (raw_path-append cwd p q n)
    ∙ ap render (collapse-split-append (raw_path cwd p) q)
    ∙ ap (λ ns. render (collapse ns (split slash q)))
        (sym (collapse-split-render names (names_of-are_names (raw_path cwd p))))
    ∙ ap render (sym (collapse-split-append (render names) q))
    ∙ ap (λ raw. render (collapse [] (split slash raw)))
        (sym (raw_path_relative (render names) q h))
