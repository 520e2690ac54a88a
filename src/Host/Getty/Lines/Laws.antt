-- ===== src/Host/Getty/Lines/Laws.antt =====
-- What the readers of kernel/src/host/getty.rs make of the bytes that arrive.
use mathlib.Core.List.{append-nil, append_assoc}
use oci_kernel.Prelude.{
  push-append, ℕ, ◌≡◌, refl, sym, ap, ◌∙◌, arith, Bool, true, false, not, ◌&&◌, ◌==◌, leb, ltb,
  List, [], ◌∷◌, ◌++◌, push, ◌⊎◌, inl, inr, length,
}
use oci_kernel.Prelude.Text.{Text}
use oci_kernel.Prelude.Utf8.{encode, as_bytes, from_utf8_lossy, is_scalar}
use oci_kernel.Prelude.Utf8.Laws.{are_scalars, from_utf8_lossy-as_bytes}
use oci_kernel.Host.Getty.State.{Getty, print}
use oci_kernel.Host.Getty.Lines.{
  Reading, waiting, line, erase, erase_echo, read_line, read_line_silent,
}

-- Bytes that are neither control characters nor the delete character.
unfoldable pub are_plain : List ℕ → Bool
are_plain [] = true
are_plain (c ∷ bytes) = leb 0x20 c && (not (c == 0x7f) && are_plain bytes)

abbrev pub echoed : Getty → List ℕ → Getty
echoed g bytes = record g { screen = g.screen ++ bytes }

echoed-echoed :
    (g : Getty) (bytes more : List ℕ) → echoed (echoed g bytes) more ≡ echoed g (bytes ++ more)
echoed-echoed g bytes more =
    ap (λ (s : List ℕ). record g { screen = s }) (append_assoc g.screen bytes more)

-- One plain byte is kept and echoed.
read_line-push :
    (g : Getty) (buf : List ℕ) (c : ℕ) (input : List ℕ)
    → leb 0x20 c ≡ true
    → (c == 0x7f) ≡ false
    → read_line g buf (c ∷ input) ≡ read_line (echoed g (c ∷ [])) (push buf c) input
unfolding read_line print
read_line-push g buf c input h k = ground arith

read_line_plain :
    (g : Getty) (buf bytes rest : List ℕ)
    → are_plain bytes ≡ true
    → read_line g buf (bytes ++ (13 ∷ rest))
      ≡ line (from_utf8_lossy (buf ++ bytes)) rest (echoed g (bytes ++ (10 ∷ [])))
unfolding are_plain
read_line_plain g buf [] rest h =
    unfold read_line in
    unfold print in
    ap (λ b. line (from_utf8_lossy b) rest (echoed g (10 ∷ []))) (sym (append-nil buf))
read_line_plain g buf (c ∷ bytes) rest h = ground (
  arith,
  read_line-push g buf c (bytes ++ (13 ∷ rest)),
  read_line_plain (echoed g (c ∷ [])) (push buf c) bytes rest,
  push-append buf c bytes,
  echoed-echoed g (c ∷ []) (bytes ++ (10 ∷ [])),
)

read_line_silent-push :
    (g : Getty) (buf : List ℕ) (c : ℕ) (input : List ℕ)
    → leb 0x20 c ≡ true
    → (c == 0x7f) ≡ false
    → read_line_silent g buf (c ∷ input) ≡ read_line_silent g (push buf c) input
unfolding read_line_silent
read_line_silent-push g buf c input h k = ground arith

read_line_silent_plain :
    (g : Getty) (buf bytes rest : List ℕ)
    → are_plain bytes ≡ true
    → read_line_silent g buf (bytes ++ (13 ∷ rest))
      ≡ line (from_utf8_lossy (buf ++ bytes)) rest (echoed g (10 ∷ []))
unfolding are_plain
read_line_silent_plain g buf [] rest h =
    unfold read_line_silent in
    unfold print in
    ap (λ b. line (from_utf8_lossy b) rest (echoed g (10 ∷ []))) (sym (append-nil buf))
read_line_silent_plain g buf (c ∷ bytes) rest h = ground (
  arith,
  read_line_silent-push g buf c (bytes ++ (13 ∷ rest)),
  read_line_silent_plain g (push buf c) bytes rest,
  push-append buf c bytes,
)

-- What can be typed: characters that are no control characters.
unfoldable pub is_typable : Text → Bool
is_typable [] = true
is_typable (c ∷ s) = is_scalar c && (leb 0x20 c && (not (c == 0x7f) && is_typable s))

are_scalars_typable : (s : Text) → is_typable s ≡ true → are_scalars s ≡ true
unfolding is_typable are_scalars
are_scalars_typable [] h = refl
are_scalars_typable (c ∷ s) h = ground (arith, are_scalars_typable s)

are_plain-append :
    (bytes more : List ℕ)
    → are_plain bytes ≡ true
    → are_plain more ≡ true
    → are_plain (bytes ++ more) ≡ true
unfolding are_plain
are_plain-append [] more h k = k
are_plain-append (c ∷ bytes) more h k = ground (arith, are_plain-append bytes more)

are_plain-encode :
    (c : ℕ)
    → is_scalar c ≡ true
    → leb 0x20 c ≡ true
    → (c == 0x7f) ≡ false
    → are_plain (encode c) ≡ true
unfolding are_plain encode
are_plain-encode c h k l = ground arith

are_plain-as_bytes : (s : Text) → is_typable s ≡ true → are_plain (as_bytes s) ≡ true
unfolding as_bytes is_typable
are_plain-as_bytes [] h = unfold are_plain in refl
are_plain-as_bytes (c ∷ s) h =
    ground
      (arith, are_plain-encode c, are_plain-as_bytes s, are_plain-append (encode c) (as_bytes s))

-- A typed line is read as it is, its bytes echoed one by one.
pub read_line-as_bytes :
    (g : Getty) (s : Text) (rest : List ℕ)
    → is_typable s ≡ true
    → read_line g [] (as_bytes s ++ (13 ∷ rest)) ≡ line s rest (echoed g (as_bytes s ++ (10 ∷ [])))
read_line-as_bytes g s rest h =
    read_line_plain g [] (as_bytes s) rest (are_plain-as_bytes s h)
    ∙ ap (λ t. line t rest (echoed g (as_bytes s ++ (10 ∷ []))))
        (from_utf8_lossy-as_bytes s (are_scalars_typable s h))

pub read_line_silent-as_bytes :
    (g : Getty) (s : Text) (rest : List ℕ)
    → is_typable s ≡ true
    → read_line_silent g [] (as_bytes s ++ (13 ∷ rest)) ≡ line s rest (echoed g (10 ∷ []))
read_line_silent-as_bytes g s rest h =
    read_line_silent_plain g [] (as_bytes s) rest (are_plain-as_bytes s h)
    ∙ ap (λ t. line t rest (echoed g (10 ∷ [])))
        (from_utf8_lossy-as_bytes s (are_scalars_typable s h))

pub Reading-cases :
    (r : Reading)
    → ((g : Getty) × (r ≡ waiting g))
      ⊎ ((s : Text) × (rest : List ℕ) × (g : Getty) × (r ≡ line s rest g))
Reading-cases (waiting g) = inl (g, refl)
Reading-cases (line s rest g) = inr (s, rest, g, refl)

-- The getty that a reading leaves, and whether it leaves fewer bytes than it was given.
unfoldable pub getty_of : Reading → Getty
getty_of (waiting g) = g
getty_of (line s rest g) = g

unfoldable pub takes_from : List ℕ → Reading → Bool
takes_from input (waiting g) = true
takes_from input (line s rest g) = ltb (length rest) (length input)

takes_from_cons :
    (c : ℕ) (input : List ℕ) (r : Reading)
    → takes_from input r ≡ true
    → takes_from (c ∷ input) r ≡ true
unfolding takes_from
takes_from_cons c input (waiting g) h = refl
takes_from_cons c input (line s rest g) h = ground arith

takes_from_line :
    (c : ℕ) (s : Text) (input : List ℕ) (g : Getty) → takes_from (c ∷ input) (line s input g) ≡ true
unfolding takes_from
takes_from_line c s input g = ground arith

pub takes_from-read_line :
    (g : Getty) (buf input : List ℕ) → takes_from input (read_line g buf input) ≡ true
unfolding read_line
takes_from-read_line g buf [] = unfold takes_from in refl
takes_from-read_line g buf (c ∷ input) = ground (
  arith,
  takes_from_line c (from_utf8_lossy buf) input (print g (10 ∷ [])),
  takes_from_cons c input (read_line (erase_echo g buf) (erase buf) input),
  takes_from_cons c input (read_line (print g (c ∷ [])) (push buf c) input),
  takes_from_cons c input (read_line g buf input),
  takes_from-read_line (erase_echo g buf) (erase buf) input,
  takes_from-read_line (print g (c ∷ [])) (push buf c) input,
  takes_from-read_line g buf input,
)

pub takes_from-read_line_silent :
    (g : Getty) (buf input : List ℕ) → takes_from input (read_line_silent g buf input) ≡ true
unfolding read_line_silent
takes_from-read_line_silent g buf [] = unfold takes_from in refl
takes_from-read_line_silent g buf (c ∷ input) = ground (
  arith,
  takes_from_line c (from_utf8_lossy buf) input (print g (10 ∷ [])),
  takes_from_cons c input (read_line_silent g (erase buf) input),
  takes_from_cons c input (read_line_silent g (push buf c) input),
  takes_from_cons c input (read_line_silent g buf input),
  takes_from-read_line_silent g (erase buf) input,
  takes_from-read_line_silent g (push buf c) input,
  takes_from-read_line_silent g buf input,
)
