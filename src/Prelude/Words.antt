-- ===== src/Prelude/Words.antt =====
-- Words: `split_whitespace` of a line that `join(" ")` made.
use Prim.Native.Nat.{ℕ}
use mathlib.Core.Path.{◌≡◌, refl, ap, ◌∙◌, sym}
use mathlib.Core.Bool.{Bool, true, false, not, ◌&&◌}
use mathlib.Core.List.{List, [], ◌∷◌, ◌++◌, append-nil, append_assoc}
use native.Mathlib.Omega.{arith}
use oci_kernel.Prelude.Tests.{◌==◌}
use oci_kernel.Prelude.Text.{
  Text, is_whitespace, is_empty, trim, trim_start, trim_end, words_from, split_whitespace,
  split_once, before_first, after_first,
}
use oci_kernel.Prelude.Decimal.{are_digits}
use mathlib.Core.Option.{none, some}

-- `join(" ")`
unfoldable pub join : Text → List Text → Text
join sep [] = []
join sep (w ∷ []) = w
join sep (w ∷ v ∷ ws) = w ++ (sep ++ join sep (v ∷ ws))

-- No character is white space.
unfoldable pub is_solid : Text → Bool
is_solid [] = true
is_solid (c ∷ s) = not (is_whitespace c) && is_solid s

-- A word: not empty, and without white space.
abbrev pub is_word : Text → Bool
is_word w = not (is_empty w) && is_solid w

unfoldable pub are_words : List Text → Bool
unfolding is_empty is_solid
are_words [] = true
are_words (w ∷ ws) = is_word w && are_words ws

words_from-is_solid :
    (w s rest : Text) → is_solid s ≡ true → words_from w (s ++ rest) ≡ words_from (w ++ s) rest
unfolding words_from is_solid
words_from-is_solid w [] rest h = rw append-nil refl
words_from-is_solid w (c ∷ s) rest h =
    let e = append_assoc w (c ∷ []) s in
    let r = ap (λ x. words_from x rest) e in
    ground (arith, words_from-is_solid (w ++ (c ∷ [])) s rest)

words_from_end : (w : Text) → is_empty w ≡ false → words_from w [] ≡ w ∷ []
unfolding words_from
words_from_end w h = ground arith

words_from_space : (w s : Text) → is_empty w ≡ false → words_from w (b' ' ∷ s) ≡ w ∷ words_from [] s
unfolding words_from is_whitespace
words_from_space w s h = ground arith

words_from-join : (ws : List Text) → are_words ws ≡ true → words_from [] (join (b' ' ∷ []) ws) ≡ ws
unfolding join are_words
words_from-join [] h = unfold words_from in refl
words_from-join (w ∷ []) h =
    ap (words_from []) (sym (append-nil w))
    ∙ words_from-is_solid [] w [] (ground arith)
    ∙ words_from_end w (ground arith)
words_from-join (w ∷ v ∷ ws) h =
    words_from-is_solid [] w (b' ' ∷ join (b' ' ∷ []) (v ∷ ws)) (ground arith)
    ∙ words_from_space w (join (b' ' ∷ []) (v ∷ ws)) (ground arith)
    ∙ ap (λ ts. w ∷ ts) (words_from-join (v ∷ ws) (ground arith))

-- Trimming takes away no word.
words_from-trim_start : (s : Text) → words_from [] (trim_start s) ≡ words_from [] s
unfolding words_from trim_start is_empty
words_from-trim_start [] = refl
words_from-trim_start (c ∷ s) = ground (arith, words_from-trim_start s)

words_from-trim_end : (w s : Text) → words_from w (trim_end s) ≡ words_from w s
unfolding words_from trim_end is_empty
words_from-trim_end w [] = refl
words_from-trim_end w (c ∷ s) = ground (
  arith,
  words_from-trim_end w s,
  words_from-trim_end [] s,
  words_from-trim_end (w ++ (c ∷ [])) s,
)

split_whitespace-trim : (s : Text) → split_whitespace (trim s) ≡ split_whitespace s
unfolding split_whitespace trim
split_whitespace-trim s = words_from-trim_end [] (trim_start s) ∙ words_from-trim_start s

-- The words of a line that was joined from words, trimmed first.
pub split_whitespace-trim-join :
    (ws : List Text) → are_words ws ≡ true → split_whitespace (trim (join (b' ' ∷ []) ws)) ≡ ws
unfolding split_whitespace
split_whitespace-trim-join ws h = split_whitespace-trim (join (b' ' ∷ []) ws) ∙ words_from-join ws h

-- The separator does not occur.
unfoldable pub lacks : ℕ → Text → Bool
lacks sep [] = true
lacks sep (c ∷ s) = not (c == sep) && lacks sep s

pub before_first-lacks :
    (sep : ℕ) (s rest : Text) → lacks sep s ≡ true → before_first sep (s ++ (sep ∷ rest)) ≡ s
unfolding before_first lacks
before_first-lacks sep [] rest h = ground arith
before_first-lacks sep (c ∷ s) rest h = ground (arith, before_first-lacks sep s rest)

pub after_first-lacks :
    (sep : ℕ) (s rest : Text) → lacks sep s ≡ true → after_first sep (s ++ (sep ∷ rest)) ≡ some rest
unfolding after_first lacks
after_first-lacks sep [] rest h = ground arith
after_first-lacks sep (c ∷ s) rest h = ground (arith, after_first-lacks sep s rest)

pub before_first_none : (sep : ℕ) (s : Text) → lacks sep s ≡ true → before_first sep s ≡ s
unfolding before_first lacks
before_first_none sep [] h = refl
before_first_none sep (c ∷ s) h = ground (arith, before_first_none sep s)

pub after_first-none : (sep : ℕ) (s : Text) → lacks sep s ≡ true → after_first sep s ≡ none
unfolding after_first lacks
after_first-none sep [] h = refl
after_first-none sep (c ∷ s) h = ground (arith, after_first-none sep s)

pub split_once-lacks :
    (sep : ℕ) (s rest : Text)
    → lacks sep s ≡ true
    → split_once sep (s ++ (sep ∷ rest)) ≡ some (s, rest)
unfolding split_once
split_once-lacks sep s rest h =
    ground (arith, before_first-lacks sep s rest, after_first-lacks sep s rest)

pub is_solid-append :
    (s t : Text) → is_solid s ≡ true → is_solid t ≡ true → is_solid (s ++ t) ≡ true
unfolding is_solid
is_solid-append [] t h k = k
is_solid-append (c ∷ s) t h k = ground (arith, is_solid-append s t)

-- Digits are neither white space nor a colon.
pub are_digits-is_solid : (s : Text) → are_digits s ≡ true → is_solid s ≡ true
unfolding are_digits is_solid is_whitespace
are_digits-is_solid [] h = refl
are_digits-is_solid (c ∷ s) h = ground (arith, are_digits-is_solid s)

pub are_digits-lacks : (s : Text) → are_digits s ≡ true → lacks b':' s ≡ true
unfolding are_digits lacks
are_digits-lacks [] h = refl
are_digits-lacks (c ∷ s) h = ground (arith, are_digits-lacks s)
