-- ===== src/Host/Getty/Path.antt =====
-- `resolve_path` of kernel/src/host/getty.rs.
pub mod Segments
pub mod Laws
use oci_kernel.Prelude.{ℕ, Bool, true, false, ◌||◌, if◌then◌else◌, List, [], ◌∷◌, ◌++◌, push}
use oci_kernel.Prelude.Text.{Text, text, text_eq, is_empty, starts_with, split}
use oci_kernel.Prelude.Words.{join}

-- `parts.pop()`, the value not used.
unfoldable pub drop_last : List Text → List Text
drop_last [] = []
drop_last (p ∷ []) = []
drop_last (p ∷ q ∷ ps) = p ∷ drop_last (q ∷ ps)

unfoldable pub add_segment : List Text → Text → List Text
unfolding drop_last is_empty
add_segment parts seg =
    if is_empty seg || text_eq seg (text ".")
    then parts
    else if text_eq seg (text "..")
    then drop_last parts
    else push parts seg

unfoldable pub collapse : List Text → List Text → List Text
unfolding add_segment
collapse parts [] = parts
collapse parts (seg ∷ segs) = collapse (add_segment parts seg) segs

unfoldable pub render : List Text → Text
render [] = text "/"
render (p ∷ ps) = b'/' ∷ join (text "/") (p ∷ ps)

unfoldable pub raw_path : Text → Text → Text
unfolding starts_with
raw_path cwd path = if starts_with (text "/") path then path else cwd ++ (b'/' ∷ path)

unfoldable pub resolve_path : Text → Text → Text
unfolding collapse render raw_path split
resolve_path cwd path = render (collapse [] (split b'/' (raw_path cwd path)))
