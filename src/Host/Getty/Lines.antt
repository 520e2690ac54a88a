-- ===== src/Host/Getty/Lines.antt =====
-- `read_line` and `read_line_silent` of kernel/src/host/getty.rs, over the bytes that arrive on the
-- serial line. The function waits where they end.
pub mod Laws
use oci_kernel.Prelude.{
  ℕ, Bool, ◌||◌, ◌==◌, leb, if◌then◌else◌, Option, none, some, List, [], ◌∷◌, push, pop,
}
use oci_kernel.Prelude.Text.{Text, text}
use oci_kernel.Prelude.Utf8.{from_utf8_lossy}
use oci_kernel.Host.Getty.State.{Getty, print}

-- A line and the bytes after it, or the wait for more, with the echo on the screen.
pub data Reading : Type 0 where
  waiting : Getty → Reading
  line : Text → List ℕ → Getty → Reading

abbrev pub is_line_end : ℕ → Bool
is_line_end c = (c == 13) || (c == 10)

abbrev pub is_erase : ℕ → Bool
is_erase c = (c == 0x7f) || (c == 0x08)

-- Back, a space over the character, and back.
abbrev pub rubout : Text
rubout = 8 ∷ 32 ∷ 8 ∷ []

unfoldable pub erase : List ℕ → List ℕ
erase buf = elim (pop buf) [ none ↦ [] | some (c, rest) ↦ rest ]

unfoldable pub erase_echo : Getty → List ℕ → Getty
unfolding print
erase_echo g buf = elim (pop buf) [ none ↦ g | some (c, rest) ↦ print g rubout ]

unfoldable pub read_line : Getty → List ℕ → List ℕ → Reading
unfolding print erase erase_echo
read_line g buf [] = waiting g
read_line g buf (c ∷ input) =
    let after_erase = read_line (erase_echo g buf) (erase buf) input in
    let after_push = read_line (print g (c ∷ [])) (push buf c) input in
    let after_nothing = read_line g buf input in
    if is_line_end c
    then line (from_utf8_lossy buf) input (print g (10 ∷ []))
    else if is_erase c
    then after_erase
    else if leb 0x20 c
    then after_push
    else after_nothing

unfoldable pub read_line_silent : Getty → List ℕ → List ℕ → Reading
unfolding print erase
read_line_silent g buf [] = waiting g
read_line_silent g buf (c ∷ input) =
    let after_erase = read_line_silent g (erase buf) input in
    let after_push = read_line_silent g (push buf c) input in
    let after_nothing = read_line_silent g buf input in
    if is_line_end c
    then line (from_utf8_lossy buf) input (print g (10 ∷ []))
    else if is_erase c
    then after_erase
    else if leb 0x20 c
    then after_push
    else after_nothing
