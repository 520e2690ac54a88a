-- ===== src/Prelude/Utf8/Laws.antt =====
-- The decoder reads back what the encoder writes.
use Prim.Native.Nat.{ℕ, zero, suc, ◌+◌, ◌/◌, ◌%◌, ◌≤◌}
use mathlib.Core.Path.{◌≡◌, refl}
use mathlib.Core.Bool.{Bool, true, ◌&&◌}
use mathlib.Core.Logic.{inl, inr}
use mathlib.Core.Option.{none, some}
use mathlib.Core.List.{List, [], ◌∷◌, ◌++◌}
use native.Mathlib.Omega.{arith}
use oci_kernel.Prelude.Tests.{ltb, Bool-cases}
use oci_kernel.Prelude.Lists.{length, length-append}
use oci_kernel.Prelude.Text.{Text}
use oci_kernel.Prelude.Utf8.{
  encode, as_bytes, char, decode_step, decode_all, from_utf8, decode_lossy, from_utf8_lossy,
  is_scalar,
}

-- All code points are scalar values.
unfoldable pub are_scalars : Text → Bool
are_scalars [] = true
are_scalars (c ∷ s) = is_scalar c && are_scalars s

-- The first byte of a code point, and the others.
pub data IsEncoded (c : ℕ) : Type 0 where
  encoded :
      (b : ℕ) (bytes : List ℕ)
      → encode c ≡ b ∷ bytes
      → ((rest : List ℕ) → decode_step b (bytes ++ rest) ≡ char c rest)
      → IsEncoded c

encode_lem : (c : ℕ) → is_scalar c ≡ true → IsEncoded c
unfolding encode decode_step
encode_lem c h = elim (Bool-cases (ltb c 0x80)) [
  | inl one ↦ encoded c [] (ground arith) (λ rest. ground arith)
  | inr more ↦ elim (Bool-cases (ltb c 0x800)) [
    | inl two ↦ encoded (0xC0 + c / 64) ((0x80 + c % 64) ∷ []) (ground arith) (λ rest. ground arith)
    | inr more' ↦ elim (Bool-cases (ltb c 0x10000)) [
      | inl three ↦
          encoded (0xE0 + c / 4096) ((0x80 + c / 64 % 64) ∷ (0x80 + c % 64) ∷ []) (ground arith)
            (λ rest. ground arith)
      | inr four ↦
          encoded (0xF0 + c / 262144)
            ((0x80 + c / 4096 % 64) ∷ (0x80 + c / 64 % 64) ∷ (0x80 + c % 64) ∷ []) (ground arith)
            (λ rest. ground arith)
    ]
  ]
]

decode_all_step :
    (rounds b c : ℕ) (bytes rest : List ℕ)
    → decode_step b bytes ≡ char c rest
    → decode_all (suc rounds) (b ∷ bytes)
      ≡ elim (decode_all rounds rest) [ none ↦ none | some s ↦ some (c ∷ s) ]
unfolding decode_all
decode_all_step rounds b c bytes rest d = ground arith

decode_lossy_step :
    (rounds b c : ℕ) (bytes rest : List ℕ)
    → decode_step b bytes ≡ char c rest
    → decode_lossy (suc rounds) (b ∷ bytes) ≡ c ∷ decode_lossy rounds rest
unfolding decode_lossy
decode_lossy_step rounds b c bytes rest d = ground arith

-- One round reads one code point.
decode_all-encode :
    (rounds c : ℕ) (rest : List ℕ)
    → is_scalar c ≡ true
    → decode_all (suc rounds) (encode c ++ rest)
      ≡ elim (decode_all rounds rest) [ none ↦ none | some s ↦ some (c ∷ s) ]
decode_all-encode rounds c rest h = read (encode_lem c h)
  where
    read :
        IsEncoded c
        → decode_all (suc rounds) (encode c ++ rest)
          ≡ elim (decode_all rounds rest) [ none ↦ none | some s ↦ some (c ∷ s) ]
    read (encoded b bytes e d) = rw e (decode_all_step rounds b c (bytes ++ rest) rest (d rest))

decode_lossy-encode :
    (rounds c : ℕ) (rest : List ℕ)
    → is_scalar c ≡ true
    → decode_lossy (suc rounds) (encode c ++ rest) ≡ c ∷ decode_lossy rounds rest
decode_lossy-encode rounds c rest h = read (encode_lem c h)
  where
    read : IsEncoded c → decode_lossy (suc rounds) (encode c ++ rest) ≡ c ∷ decode_lossy rounds rest
    read (encoded b bytes e d) = rw e (decode_lossy_step rounds b c (bytes ++ rest) rest (d rest))

decode_all-nil : (rounds : ℕ) → decode_all rounds [] ≡ some []
unfolding decode_all
decode_all-nil zero = refl
decode_all-nil (suc rounds) = refl

decode_lossy-nil : (rounds : ℕ) → decode_lossy rounds [] ≡ []
unfolding decode_lossy
decode_lossy-nil zero = refl
decode_lossy-nil (suc rounds) = refl

length-encode : (c : ℕ) → 1 ≤ length (encode c)
unfolding encode
length-encode c = ground arith

decode_all-as_bytes :
    (rounds : ℕ) (s : Text)
    → length (as_bytes s) ≤ rounds
    → are_scalars s ≡ true
    → decode_all rounds (as_bytes s) ≡ some s
unfolding as_bytes are_scalars
decode_all-as_bytes rounds [] l h = decode_all-nil rounds
decode_all-as_bytes zero (c ∷ s) l h =
    absurd (omega (arith, length-append (encode c) (as_bytes s), length-encode c))
decode_all-as_bytes (suc rounds) (c ∷ s) l h =
    let a = length-append (encode c) (as_bytes s) in
    let first : is_scalar c ≡ true = ground arith in
    let rest = decode_all-as_bytes rounds s (omega (arith, a, length-encode c)) (ground arith) in
    rw (decode_all-encode rounds c (as_bytes s) first, rest) refl

-- Text comes back from its bytes.
pub from_utf8-as_bytes : (s : Text) → are_scalars s ≡ true → from_utf8 (as_bytes s) ≡ some s
unfolding from_utf8
from_utf8-as_bytes s h = decode_all-as_bytes (length (as_bytes s)) s (omega arith) h

decode_lossy-as_bytes :
    (rounds : ℕ) (s : Text)
    → length (as_bytes s) ≤ rounds
    → are_scalars s ≡ true
    → decode_lossy rounds (as_bytes s) ≡ s
unfolding as_bytes are_scalars
decode_lossy-as_bytes rounds [] l h = decode_lossy-nil rounds
decode_lossy-as_bytes zero (c ∷ s) l h =
    absurd (omega (arith, length-append (encode c) (as_bytes s), length-encode c))
decode_lossy-as_bytes (suc rounds) (c ∷ s) l h =
    let a = length-append (encode c) (as_bytes s) in
    let first : is_scalar c ≡ true = ground arith in
    let rest = decode_lossy-as_bytes rounds s (omega (arith, a, length-encode c)) (ground arith) in
    rw (decode_lossy-encode rounds c (as_bytes s) first, rest) refl

pub from_utf8_lossy-as_bytes : (s : Text) → are_scalars s ≡ true → from_utf8_lossy (as_bytes s) ≡ s
unfolding from_utf8_lossy
from_utf8_lossy-as_bytes s h = decode_lossy-as_bytes (length (as_bytes s)) s (omega arith) h
