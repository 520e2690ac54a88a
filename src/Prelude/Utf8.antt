-- ===== src/Prelude/Utf8.antt =====
-- UTF-8: `as_bytes`, `core::str::from_utf8` and `String::from_utf8_lossy`.
pub mod Laws
use Prim.Native.Nat.{ℕ, zero, suc, ◌+◌, ◌-◌, ◌*◌, ◌/◌, ◌%◌}
use mathlib.Core.Bool.{Bool, true, false, ◌&&◌, ◌||◌}
use mathlib.Core.Option.{Option, none, some}
use mathlib.Core.List.{List, [], ◌∷◌, ◌++◌}
use oci_kernel.Prelude.Tests.{ltb, leb, ◌==◌, if◌then◌else◌}
use oci_kernel.Prelude.Lists.{length}
use oci_kernel.Prelude.Text.{Text}

-- The bytes of one code point.
unfoldable pub encode : ℕ → List ℕ
encode c =
    if ltb c 0x80
    then c ∷ []
    else if ltb c 0x800
    then (0xC0 + c / 64) ∷ (0x80 + c % 64) ∷ []
    else if ltb c 0x10000
    then (0xE0 + c / 4096) ∷ (0x80 + c / 64 % 64) ∷ (0x80 + c % 64) ∷ []
    else (0xF0 + c / 262144) ∷ (0x80 + c / 4096 % 64) ∷ (0x80 + c / 64 % 64) ∷ (0x80 + c % 64) ∷ []

-- `s.as_bytes()`
unfoldable pub as_bytes : Text → List ℕ
unfolding encode
as_bytes [] = []
as_bytes (c ∷ s) = encode c ++ as_bytes s

-- One step of the decoder: a code point, or bytes that are none, and what is left.
pub data Decoded : Type 0 where
  char : ℕ → List ℕ → Decoded
  bad : List ℕ → Decoded

abbrev pub within : ℕ → ℕ → ℕ → Bool
within lo hi b = leb lo b && leb b hi

abbrev pub is_continuation : ℕ → Bool
is_continuation b = within 0x80 0xBF b

-- The second byte keeps out overlong forms, surrogates and what is past 0x10FFFF.
abbrev pub second_of_three : ℕ → ℕ → Bool
second_of_three lead b =
    if lead == 0xE0
    then within 0xA0 0xBF b
    else if lead == 0xED
    then within 0x80 0x9F b
    else is_continuation b

abbrev pub second_of_four : ℕ → ℕ → Bool
second_of_four lead b =
    if lead == 0xF0
    then within 0x90 0xBF b
    else if lead == 0xF4
    then within 0x80 0x8F b
    else is_continuation b

-- The last byte, with the value of those before it.
abbrev pub last_byte : ℕ → List ℕ → Decoded
last_byte n [] = bad []
last_byte n (b ∷ rest) =
    if is_continuation b then char (n * 64 + (b - 0x80)) rest else bad (b ∷ rest)

abbrev pub third_of_four : ℕ → List ℕ → Decoded
third_of_four n [] = bad []
third_of_four n (b ∷ rest) =
    if is_continuation b then last_byte (n * 64 + (b - 0x80)) rest else bad (b ∷ rest)

abbrev pub after_lead_three : ℕ → List ℕ → Decoded
after_lead_three lead [] = bad []
after_lead_three lead (b ∷ rest) =
    if second_of_three lead b
    then last_byte ((lead - 0xE0) * 64 + (b - 0x80)) rest
    else bad (b ∷ rest)

abbrev pub after_lead_four : ℕ → List ℕ → Decoded
after_lead_four lead [] = bad []
after_lead_four lead (b ∷ rest) =
    if second_of_four lead b
    then third_of_four ((lead - 0xF0) * 64 + (b - 0x80)) rest
    else bad (b ∷ rest)

unfoldable pub decode_step : ℕ → List ℕ → Decoded
decode_step lead rest =
    if ltb lead 0x80
    then char lead rest
    else if within 0xC2 0xDF lead
    then last_byte (lead - 0xC0) rest
    else if within 0xE0 0xEF lead
    then after_lead_three lead rest
    else if within 0xF0 0xF4 lead
    then after_lead_four lead rest
    else bad rest

-- Each step takes a byte at least, so that a round for each byte is enough.
unfoldable pub decode_all : ℕ → List ℕ → Option Text
decode_all rounds [] = some []
decode_all zero (b ∷ bytes) = none
decode_all (suc rounds) (b ∷ bytes) = elim (decode_step b bytes) [
  | bad rest ↦ none
  | char c rest ↦ elim (decode_all rounds rest) [ none ↦ none | some s ↦ some (c ∷ s) ]
]

unfoldable pub from_utf8 : List ℕ → Option Text
unfolding decode_all decode_step
from_utf8 bytes = decode_all (length bytes) bytes

unfoldable pub decode_lossy : ℕ → List ℕ → Text
decode_lossy rounds [] = []
decode_lossy zero (b ∷ bytes) = []
decode_lossy (suc rounds) (b ∷ bytes) = elim (decode_step b bytes) [
  | bad rest ↦ 0xFFFD ∷ decode_lossy rounds rest
  | char c rest ↦ c ∷ decode_lossy rounds rest
]

unfoldable pub from_utf8_lossy : List ℕ → Text
unfolding decode_lossy decode_step
from_utf8_lossy bytes = decode_lossy (length bytes) bytes

-- A Unicode scalar value, which is what a `char` is.
abbrev pub is_scalar : ℕ → Bool
is_scalar c = ltb c 0xD800 || within 0xE000 0x10FFFF c
