-- ===== src/Net/Tls/Filled.antt =====
-- What `fill_bytes` of kernel/src/net/tls.rs fills a buffer with.
use oci_kernel.Prelude.{
  ℕ, zero, suc, ◌+◌, ◌-◌, ◌/◌, ◌%◌, ◌<◌, ◌≤◌, ◌≡◌, refl, ap, ◌∙◌, arith, min, Bool, true, false,
  ltb, ◌==◌, if◌then◌else◌, List, [], ◌++◌, length, length-append, take, get_or,
}
use oci_kernel.Prelude.Slices.{length-take, get_or-append, get_or-take}
use oci_kernel.Net.Tls.Rng.{next_u64, le_bytes, fill_from, fill_bytes}

length-le_bytes : (n v : ℕ) → length (le_bytes n v) ≡ n
unfolding le_bytes
length-le_bytes zero v = refl
length-le_bytes (suc n) v = omega (arith, length-le_bytes n (v / 256))

-- Byte `p` of the buffer is byte `p % 8` of word `p / 8`, the lowest first.
unfoldable pub word_byte : (ℕ → ℕ) → ℕ → ℕ → ℕ
word_byte words i p = get_or (le_bytes 8 (words (i + p / 8))) (p % 8) 0

-- A buffer of `len` bytes that is filled with the words from `i` on, and the first word not used.
pub record IsFilled (words : ℕ → ℕ) (len i : ℕ) (dest : List ℕ) (next : ℕ) : Type 0 where
  pub all_filled : length dest ≡ len
  pub bytes : (p : ℕ) → get_or dest p 0 ≡ (if ltb p len then word_byte words i p else 0)
  pub used : next ≡ i + (len + 7) / 8

-- A word's bytes, cut to those that are left.
abbrev piece : (ℕ → ℕ) → ℕ → ℕ → List ℕ
piece words left i = take (min left 8) (le_bytes 8 (words i))

length-piece : (words : ℕ → ℕ) (left i : ℕ) → length (piece words left i) ≡ min left 8
length-piece words left i =
    ground (arith, length-take (min left 8) (le_bytes 8 (words i)), length-le_bytes 8 (words i))

piece_byte :
    (words : ℕ → ℕ) (left i p : ℕ)
    → p < min left 8
    → get_or (piece words left i) p 0 ≡ word_byte words i p
unfolding word_byte
piece_byte words left i p h =
    let same_word : i ≡ i + p / 8 = omega arith in
    let same_place : p ≡ p % 8 = omega arith in
    get_or-take 0 (min left 8) (le_bytes 8 (words i)) p h
    ∙ ap (λ j. get_or (le_bytes 8 (words j)) p 0) same_word
    ∙ ap (λ q. get_or (le_bytes 8 (words (i + p / 8))) q 0) same_place

word_byte_later :
    (words : ℕ → ℕ) (i p : ℕ) → 8 ≤ p → word_byte words (i + 1) (p - 8) ≡ word_byte words i p
unfolding word_byte
word_byte_later words i p h =
    let same_word : i + 1 + (p - 8) / 8 ≡ i + p / 8 = omega arith in
    let same_place : (p - 8) % 8 ≡ p % 8 = omega arith in
    ap (λ j. get_or (le_bytes 8 (words j)) ((p - 8) % 8) 0) same_word
    ∙ ap (λ q. get_or (le_bytes 8 (words (i + p / 8))) q 0) same_place

-- A word's bytes, and the bytes after them.
more-IsFilled :
    (words : ℕ → ℕ) (left i : ℕ) (rest : List ℕ) (k : ℕ)
    → 0 < left
    → IsFilled words (left - min left 8) (i + 1) rest k
    → IsFilled words left i (piece words left i ++ rest) k
more-IsFilled words left i rest k h v = record {
  all_filled =
      omega
        (arith, length-append (piece words left i) rest, length-piece words left i, v.all_filled);
  bytes = λ p. ground (
    arith,
    get_or-append 0 (piece words left i) rest p,
    length-piece words left i,
    piece_byte words left i p,
    v.bytes (p - min left 8),
    word_byte_later words i p,
  );
  used = omega (arith, v.used);
}

nothing-IsFilled : (words : ℕ → ℕ) (i : ℕ) → IsFilled words 0 i [] i
nothing-IsFilled words i = record {
  all_filled = refl;
  bytes = λ p. ground arith;
  used = omega arith;
}

-- The round that is made where bytes are left.
round-IsFilled :
    (words : ℕ → ℕ) (left i : ℕ) (rest : List ℕ × ℕ) (b : Bool)
    → b ≡ false
    → IsFilled words left i (piece words left i ++ rest.0) rest.1
    → let empty : List ℕ × ℕ = ([], i) in
      let more : List ℕ × ℕ = (piece words left i ++ rest.0, rest.1) in
      IsFilled words left i (if b then empty else more).0 (if b then empty else more).1
round-IsFilled words left i rest true e v = absurd (ground arith)
round-IsFilled words left i rest false e v = v

fill_from-IsFilled :
    (words : ℕ → ℕ) (fuel left i : ℕ)
    → left ≤ fuel
    → IsFilled words left i (fill_from words fuel left i).0 (fill_from words fuel left i).1
unfolding fill_from next_u64
fill_from-IsFilled words zero zero i h = nothing-IsFilled words i
fill_from-IsFilled words (suc fuel) zero i h = nothing-IsFilled words i
fill_from-IsFilled words zero (suc left) i h = absurd (omega arith)
fill_from-IsFilled words (suc fuel) (suc left) i h =
    let rest = fill_from words fuel (suc left - min (suc left) 8) (i + 1) in
    let later = fill_from-IsFilled words fuel (suc left - min (suc left) 8) (i + 1) (omega arith) in
    let more = more-IsFilled words (suc left) i rest.0 rest.1 (omega arith) later in
    round-IsFilled words (suc left) i rest (suc left == 0) (ground arith) more

-- `fill_bytes` fills every byte of the buffer, with the bytes of one random word after another, the lowest byte of a word first, and takes only as many words as it needs.
pub fill_bytes-IsFilled :
    (words : ℕ → ℕ) (len i : ℕ)
    → IsFilled words len i (fill_bytes words len i).0 (fill_bytes words len i).1
unfolding fill_bytes
fill_bytes-IsFilled words len i = fill_from-IsFilled words len len i (omega arith)
