-- ===== src/Config/Printed.antt =====
-- How the readers of kernel/src/config.rs take a printed line.
use oci_kernel.Prelude.{
  ℕ, ◌+◌, ◌*◌, ◌%◌, ◌^◌, ◌<◌, ◌≡◌, ◌≢◌, refl, ap, ◌∙◌, arith, Bool, true, false, not, ◌&&◌, ◌==◌,
  if◌then◌else◌, some, List, [], ◌∷◌, ◌++◌,
}
use oci_kernel.Prelude.Text.{
  Text, text, is_empty, is_whitespace, len, trim, trim_start, trim_end, split, prepend, strip_cr,
  line_list, lines, parse_unsigned, text_eq, strip_suffix,
}
use oci_kernel.Prelude.Decimal.{
  to_decimal, to_decimal-ne-nil, are_digits, are_digits-to_decimal, parse_unsigned-to_decimal,
}
use oci_kernel.Prelude.Words.{is_solid, is_solid-append, are_digits-is_solid, lacks}
use oci_kernel.Config.Line.{leading_spaces, parse_u16, parse_usize, parse_memory, scaled}
use oci_kernel.Config.Printer.{unlines}

-- A word that is not empty.
abbrev pub is_value : Text → Bool
is_value s = is_solid s && not (is_empty s)

trim_end-is_solid : (s : Text) → is_solid s ≡ true → trim_end s ≡ s
unfolding trim_end is_solid
trim_end-is_solid [] h = refl
trim_end-is_solid (c ∷ s) h = ground (arith, trim_end-is_solid s)

is_empty-append : (p v : Text) → is_empty v ≡ false → is_empty (p ++ v) ≡ false
unfolding is_empty
is_empty-append [] v h = h
is_empty-append (c ∷ p) v h = refl

pub trim_end-append : (p v : Text) → is_value v ≡ true → trim_end (p ++ v) ≡ p ++ v
unfolding trim_end is_empty
trim_end-append [] v h = ground (arith, trim_end-is_solid v)
trim_end-append (c ∷ p) v h = ground (arith, trim_end-append p v, is_empty-append p v)

trim_start-is_value : (v : Text) → is_value v ≡ true → trim_start v ≡ v
unfolding trim_start is_solid is_empty
trim_start-is_value [] h = refl
trim_start-is_value (c ∷ s) h = ground arith

pub trim-is_value : (v : Text) → is_value v ≡ true → trim v ≡ v
unfolding trim
trim-is_value v h = ap trim_end (trim_start-is_value v h) ∙ trim_end-append [] v h

-- A value after one space.
pub trim_space : (v : Text) → is_value v ≡ true → trim (b' ' ∷ v) ≡ v
unfolding trim trim_start is_whitespace
trim_space v h = trim-is_value v h

pub trim_line : (raw p v : Text) → trim_start raw ≡ p ++ v → is_value v ≡ true → trim raw ≡ p ++ v
unfolding trim
trim_line raw p v e h = ap trim_end e ∙ trim_end-append p v h

pub leading_spaces_of :
    (raw line : Text) (n : ℕ)
    → trim_start raw ≡ line
    → len raw ≡ n + len line
    → leading_spaces raw ≡ n
unfolding leading_spaces
leading_spaces_of raw line n e l = omega (arith, ap len e, l)

pub to_decimal-is_value : (n : ℕ) → is_value (to_decimal n) ≡ true
unfolding is_empty
to_decimal-is_value n =
    ground (arith, are_digits-is_solid (to_decimal n), are_digits-to_decimal n, to_decimal-ne-nil n)

pub parse_u16-to_decimal : (n : ℕ) → n < 2 ^ 16 → parse_u16 (to_decimal n) ≡ some n
unfolding parse_u16
parse_u16-to_decimal n h =
    ap (parse_unsigned (2 ^ 16)) (trim-is_value (to_decimal n) (to_decimal-is_value n))
    ∙ parse_unsigned-to_decimal (2 ^ 16) n h

pub is_value_megabytes : (n : ℕ) → is_value (to_decimal n ++ text "MB") ≡ true
unfolding is_solid is_whitespace
is_value_megabytes n =
    let solid =
      is_solid-append (to_decimal n) (text "MB")
        (are_digits-is_solid (to_decimal n) (are_digits-to_decimal n)) refl in
    ground (arith, is_empty-append (to_decimal n) (text "MB") (unfold is_empty in refl))

strip_suffix-are_digits :
    (s : Text) → are_digits s ≡ true → strip_suffix (text "mb") (s ++ text "mb") ≡ some s
unfolding strip_suffix are_digits text_eq
strip_suffix-are_digits [] h = refl
strip_suffix-are_digits (c ∷ s) h = ground (arith, strip_suffix-are_digits s)

-- Upper-case letters are lowered.
abbrev pub LowersMegabytes : (Text → Text) → Type 0
LowersMegabytes to_lowercase =
    (s : Text) → are_digits s ≡ true → to_lowercase (s ++ text "MB") ≡ s ++ text "mb"

pub parse_memory_megabytes :
    (to_lowercase : Text → Text) (n : ℕ)
    → LowersMegabytes to_lowercase
    → n * (1024 * 1024) < 2 ^ 64
    → parse_memory to_lowercase (to_decimal n ++ text "MB") ≡ some (n * (1024 * 1024))
unfolding parse_memory scaled parse_usize
parse_memory_megabytes to_lowercase n lowers h =
    let digits = are_digits-to_decimal n in
    let parsed : parse_unsigned (2 ^ 64) (trim (to_decimal n)) ≡ some n =
      ap (parse_unsigned (2 ^ 64)) (trim-is_value (to_decimal n) (to_decimal-is_value n))
      ∙ parse_unsigned-to_decimal (2 ^ 64) n (omega arith) in
    let wrapped : (n * (1024 * 1024)) % 2 ^ 64 ≡ n * (1024 * 1024) = omega arith in
    let s = to_decimal n ++ text "MB" in
    let lowered : to_lowercase (trim s) ≡ to_decimal n ++ text "mb" =
      ap to_lowercase (trim-is_value s (is_value_megabytes n)) ∙ lowers (to_decimal n) digits in
    let stripped : strip_suffix (text "mb") (to_lowercase (trim s)) ≡ some (to_decimal n) =
      ap (strip_suffix (text "mb")) lowered ∙ strip_suffix-are_digits (to_decimal n) digits in
    ground (arith, stripped, parsed, wrapped)

-- A line has no end of a line in it.
unfoldable pub is_line : Text → Bool
unfolding lacks
is_line l = lacks 10 l && lacks 13 l

unfoldable pub are_lines : List Text → Bool
unfolding is_line
are_lines [] = true
are_lines (l ∷ ls) = is_line l && are_lines ls

pub is_line-is_solid : (s : Text) → is_solid s ≡ true → is_line s ≡ true
unfolding is_line lacks is_solid is_whitespace
is_line-is_solid [] h = refl
is_line-is_solid (c ∷ s) h = ground (arith, is_line-is_solid s)

pub is_line-append : (s t : Text) → is_line s ≡ true → is_line t ≡ true → is_line (s ++ t) ≡ true
unfolding is_line lacks
is_line-append [] t h k = k
is_line-append (c ∷ s) t h k = ground (arith, is_line-append s t)

split-is_line : (l rest : Text) → is_line l ≡ true → split 10 (l ++ (10 ∷ rest)) ≡ l ∷ split 10 rest
unfolding split is_line lacks
split-is_line [] rest h = ground arith
split-is_line (c ∷ l) rest h = ground (arith, split-is_line l rest)

strip_cr-is_line : (l : Text) → is_line l ≡ true → strip_cr l ≡ l
unfolding strip_cr is_line lacks
strip_cr-is_line [] h = refl
strip_cr-is_line (c ∷ []) h = ground arith
strip_cr-is_line (c ∷ d ∷ s) h = ground (arith, strip_cr-is_line (d ∷ s))

split-ne-nil : (s : Text) → split 10 s ≢ []
unfolding split
split-ne-nil [] = λ e. cc
split-ne-nil (c ∷ s) =
    elim (split 10 s) as (λ ps. (if c == 10 then [] ∷ ps else prepend c ps) ≢ []) [
      | [] ↦ ground arith
      | (q ∷ qs) ↦ ground arith
    ]

line_list_cons :
    (p : Text) (ps : List Text) → ps ≢ [] → line_list (p ∷ ps) ≡ strip_cr p ∷ line_list ps
unfolding line_list
line_list_cons p [] h = ground arith
line_list_cons p (q ∷ qs) h = refl

-- The lines of a text are the ones that it was made of.
pub lines-unlines : (ls : List Text) → are_lines ls ≡ true → lines (unlines ls) ≡ ls
unfolding lines unlines are_lines
lines-unlines [] h = unfold split in unfold line_list in unfold is_empty in refl
lines-unlines (l ∷ ls) h =
    let first : is_line l ≡ true = ground arith in
    let rest : lines (unlines ls) ≡ ls = lines-unlines ls (ground arith) in
    ap line_list (split-is_line l (unlines ls) first)
    ∙ line_list_cons l (split 10 (unlines ls)) (split-ne-nil (unlines ls))
    ∙ ap (λ r. r ∷ line_list (split 10 (unlines ls))) (strip_cr-is_line l first)
    ∙ ap (λ r. l ∷ r) rest
