-- ===== src/Host/Getty/Path/Segments.antt =====
-- The segments of the paths of kernel/src/host/getty.rs.
use mathlib.Core.List.{append-nil}
use oci_kernel.Prelude.{
  push-append, ℕ, ◌≡◌, refl, sym, arith, Bool, true, false, not, ◌&&◌, ◌==◌, ◌≢◌, if◌then◌else◌,
  List, [], ◌∷◌, ◌++◌, push,
}
use oci_kernel.Prelude.Text.{Text, text, text_eq, is_empty, split, prepend}
use oci_kernel.Prelude.Words.{join, lacks}
use oci_kernel.Host.Getty.Path.{drop_last, add_segment, collapse}

abbrev pub slash : ℕ
slash = b'/'

-- A name: not empty, no slash, and neither `.` nor `..`.
unfoldable pub is_name : Text → Bool
unfolding is_empty text_eq
is_name s =
    not (is_empty s)
    && (not (text_eq s (text ".")) && (not (text_eq s (text "..")) && lacks slash s))

unfoldable pub are_names : List Text → Bool
unfolding is_name
are_names [] = true
are_names (s ∷ ss) = is_name s && are_names ss

unfoldable pub all_lack : List Text → Bool
all_lack [] = true
all_lack (s ∷ ss) = lacks slash s && all_lack ss

-- The root, or names with a slash before each.
unfoldable pub is_canonical : Text → Bool
unfolding are_names
is_canonical [] = false
is_canonical (c ∷ []) = c == slash
is_canonical (c ∷ d ∷ s) = (c == slash) && are_names (split slash (d ∷ s))

prepend-all_lack :
    (c : ℕ) (ss : List Text)
    → (c == slash) ≡ false
    → all_lack ss ≡ true
    → all_lack (prepend c ss) ≡ true
unfolding all_lack lacks
prepend-all_lack c [] h k = ground arith
prepend-all_lack c (s ∷ ss) h k = ground arith

pub split-all_lack : (s : Text) → all_lack (split slash s) ≡ true
unfolding split all_lack lacks
split-all_lack [] = refl
split-all_lack (c ∷ s) = ground (arith, split-all_lack s, prepend-all_lack c (split slash s))

drop_last-are_names : (ps : List Text) → are_names ps ≡ true → are_names (drop_last ps) ≡ true
unfolding are_names drop_last
drop_last-are_names [] h = refl
drop_last-are_names (p ∷ []) h = refl
drop_last-are_names (p ∷ q ∷ ps) h = ground (arith, drop_last-are_names (q ∷ ps))

push-are_names :
    (ps : List Text) (s : Text)
    → are_names ps ≡ true
    → is_name s ≡ true
    → are_names (push ps s) ≡ true
unfolding are_names
push-are_names [] s h k = ground arith
push-are_names (p ∷ ps) s h k = ground (arith, push-are_names ps s)

add_segment-are_names :
    (ps : List Text) (s : Text)
    → are_names ps ≡ true
    → lacks slash s ≡ true
    → are_names (add_segment ps s) ≡ true
unfolding add_segment is_name
add_segment-are_names ps s h k = ground (arith, drop_last-are_names ps, push-are_names ps s)

pub collapse-are_names :
    (ps segs : List Text)
    → are_names ps ≡ true
    → all_lack segs ≡ true
    → are_names (collapse ps segs) ≡ true
unfolding collapse all_lack
collapse-are_names ps [] h k = h
collapse-are_names ps (s ∷ segs) h k =
    ground (arith, collapse-are_names (add_segment ps s) segs, add_segment-are_names ps s)

-- Names are added as they are.
add_segment-is_name : (ps : List Text) (s : Text) → is_name s ≡ true → add_segment ps s ≡ push ps s
unfolding add_segment is_name
add_segment-is_name ps s h = ground arith

pub collapse-names : (ps segs : List Text) → are_names segs ≡ true → collapse ps segs ≡ ps ++ segs
unfolding collapse are_names
collapse-names ps [] h = sym (append-nil ps)
collapse-names ps (s ∷ segs) h =
    ground (arith, add_segment-is_name ps s, collapse-names (push ps s) segs, push-append ps s segs)

pub collapse-append :
    (ps segs more : List Text) → collapse ps (segs ++ more) ≡ collapse (collapse ps segs) more
unfolding collapse
collapse-append ps [] more = refl
collapse-append ps (s ∷ segs) more = collapse-append (add_segment ps s) segs more

-- The pieces of a text with a separator in it.
pub split_nonempty : (sep : ℕ) (s : Text) → split sep s ≢ []
unfolding split
split_nonempty sep [] = λ e. cc
split_nonempty sep (c ∷ s) =
    elim (split sep s) as (λ r. (if c == sep then [] ∷ r else prepend c r) ≢ []) [
      | [] ↦ ground arith
      | p ∷ ps ↦ ground arith
    ]

prepend-append :
    (c : ℕ) (ss more : List Text) → ss ≢ [] → prepend c (ss ++ more) ≡ prepend c ss ++ more
prepend-append c [] more h = absurd (h refl)
prepend-append c (s ∷ ss) more h = refl

pub split-append : (a b : Text) → split slash (a ++ (slash ∷ b)) ≡ split slash a ++ split slash b
unfolding split
split-append [] b = ground arith
split-append (c ∷ a) b = ground (
  arith,
  split-append a b,
  prepend-append c (split slash a) (split slash b),
  split_nonempty slash a,
)

split-lacks : (s : Text) → lacks slash s ≡ true → split slash s ≡ s ∷ []
unfolding split lacks
split-lacks [] h = refl
split-lacks (c ∷ s) h = ground (arith, split-lacks s)

pub split-join :
    (p : Text) (ps : List Text)
    → are_names (p ∷ ps) ≡ true
    → split slash (join (text "/") (p ∷ ps)) ≡ p ∷ ps
unfolding join are_names is_name
split-join p [] h = ground (arith, split-lacks p)
split-join p (q ∷ ps) h =
    ground (arith, split-append p (join (text "/") (q ∷ ps)), split-lacks p, split-join q ps)
