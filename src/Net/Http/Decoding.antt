-- ===== src/Net/Http/Decoding.antt =====
-- What the decoder of kernel/src/net/http.rs makes of chunks.
use mathlib.Core.List.{append-nil, append_assoc}
use oci_kernel.Prelude.{
  ℕ, zero, suc, ◌+◌, ◌-◌, ◌^◌, ◌<◌, ◌≤◌, ◌≡◌, ◌⊎◌, inl, inr, refl, ap, ◌∙◌, arith, Bool, true,
  false, ◌&&◌, ltb, ◌==◌, length, length-append, take, drop, Option, none, some, List, [], ◌∷◌,
  ◌++◌,
}
use oci_kernel.Prelude.Text.{trim, before_first, starts_with}
use oci_kernel.Prelude.Utf8.{from_utf8}
use oci_kernel.Prelude.Words.{lacks}
use oci_kernel.Net.Http.Chunked.{
  position_of, parse_hex_digits, from_str_radix, size_text, chunk_size, decoded, Round, last, bad,
  chunk, chunk_of, sized_chunk, round_at, round, chunks, parse_chunked,
}

module _ {ℓ} {A : Type ℓ} where
  length-drop : (n : ℕ) (xs : List A) → length (drop n xs) ≡ length xs - n
  length-drop zero xs = omega arith
  length-drop (suc n) [] = omega arith
  length-drop (suc n) (x ∷ xs) = omega (arith, length-drop n xs)

  take-append : (xs ys : List A) → take (length xs) (xs ++ ys) ≡ xs
  take-append [] ys = refl
  take-append (x ∷ xs) ys = ap (λ zs. x ∷ zs) (take-append xs ys)

  drop-append :
      (xs : List A) (x y : A) (ys : List A) → drop (length xs + 2) (xs ++ (x ∷ y ∷ ys)) ≡ ys
  drop-append [] x y ys = refl
  drop-append (z ∷ xs) x y ys =
      let e : suc (length xs) + 2 ≡ suc (length xs + 2) = omega arith in
      ap (λ k. drop k (z ∷ (xs ++ (x ∷ y ∷ ys)))) e ∙ drop-append xs x y ys

Round-cases :
    (r : Round) → (r ≡ last) ⊎ ((r ≡ bad) ⊎ ((c : List ℕ) × (rest : List ℕ) × (r ≡ chunk c rest)))
Round-cases last = inl refl
Round-cases bad = inr (inl refl)
Round-cases (chunk c rest) = inr (inr (c, rest, refl))

-- Whether a round leaves fewer bytes than it was given.
shrinks : List ℕ → Round → Bool
shrinks bytes last = true
shrinks bytes bad = true
shrinks bytes (chunk c rest) = ltb (length rest) (length bytes)

shrinks-chunk_of :
    (n : ℕ) (bytes rest : List ℕ)
    → length rest ≤ length bytes
    → shrinks bytes (chunk_of n rest) ≡ true
unfolding shrinks chunk_of
shrinks-chunk_of n bytes rest h = ground (arith, length-drop (n + 2) rest)

shrinks-sized_chunk :
    (n : Option ℕ) (bytes rest : List ℕ)
    → length rest ≤ length bytes
    → shrinks bytes (sized_chunk n rest) ≡ true
unfolding sized_chunk
shrinks-sized_chunk none bytes rest h = unfold shrinks in refl
shrinks-sized_chunk (some n) bytes rest h = shrinks-chunk_of n bytes rest h

shrinks-round_at : (crlf : Option ℕ) (bytes : List ℕ) → shrinks bytes (round_at crlf bytes) ≡ true
unfolding round_at
shrinks-round_at none bytes = unfold shrinks in refl
shrinks-round_at (some crlf) bytes =
    shrinks-sized_chunk (chunk_size (take crlf bytes)) bytes (drop (crlf + 2) bytes)
      (omega (arith, length-drop (crlf + 2) bytes))

shrinks-round : (bytes : List ℕ) → shrinks bytes (round bytes) ≡ true
unfolding round
shrinks-round bytes = shrinks-round_at (position_of (13 ∷ 10 ∷ []) bytes) bytes

-- Any fuel above the length of the input gives the same result, so that the decoder never stops for want of fuel.
pub chunks_enough :
    (rounds more : ℕ) (result bytes : List ℕ)
    → length bytes < rounds
    → length bytes < more
    → chunks rounds result bytes ≡ chunks more result bytes
unfolding chunks shrinks
chunks_enough zero more result bytes h k = absurd (omega arith)
chunks_enough (suc rounds) zero result bytes h k = absurd (omega arith)
chunks_enough (suc rounds) (suc more) result bytes h k =
    let s = shrinks-round bytes in
    elim (Round-cases (round bytes)) [
      | inl e ↦ ground arith
      | inr (inl e) ↦ ground arith
      | inr (inr (c, rest, e)) ↦ ground (arith, chunks_enough rounds more (result ++ c) rest)
    ]

-- A chunk as it is sent: its size line, which may have extensions, and its bytes.
pub record Chunk : Type 0 where
  pub line : List ℕ
  pub bytes : List ℕ

unfoldable pub is_chunk : Chunk → Bool
unfolding lacks
is_chunk c =
    lacks 13 c.line
    && (ltb 0 (length c.bytes)
        && (ltb (length c.bytes + 2) (2 ^ 64)
            && elim (chunk_size c.line) [ none ↦ false | some n ↦ n == length c.bytes ]))

unfoldable pub are_chunks : List Chunk → Bool
unfolding is_chunk
are_chunks [] = true
are_chunks (c ∷ cs) = is_chunk c && are_chunks cs

unfoldable pub send_chunk : Chunk → List ℕ → List ℕ
send_chunk c rest = c.line ++ (13 ∷ 10 ∷ (c.bytes ++ (13 ∷ 10 ∷ rest)))

-- The chunks, then the last chunk and what follows it.
unfoldable pub send : List Chunk → List ℕ → List ℕ
unfolding send_chunk
send [] rest = b'0' ∷ 13 ∷ 10 ∷ rest
send (c ∷ cs) rest = send_chunk c (send cs rest)

unfoldable pub all_bytes : List Chunk → List ℕ
all_bytes [] = []
all_bytes (c ∷ cs) = c.bytes ++ all_bytes cs

position_of-lacks :
    (line rest : List ℕ)
    → lacks 13 line ≡ true
    → position_of (13 ∷ 10 ∷ []) (line ++ (13 ∷ 10 ∷ rest)) ≡ some (length line)
unfolding position_of lacks starts_with
position_of-lacks [] rest h = ground arith
position_of-lacks (c ∷ line) rest h = ground (arith, position_of-lacks line rest)

chunk_of-bytes :
    (bytes rest : List ℕ)
    → 0 < length bytes
    → length bytes + 2 < 2 ^ 64
    → chunk_of (length bytes) (bytes ++ (13 ∷ 10 ∷ rest)) ≡ chunk bytes rest
unfolding chunk_of
chunk_of-bytes bytes rest h k = ground (
  arith,
  take-append bytes (13 ∷ 10 ∷ rest),
  drop-append bytes 13 10 rest,
  length-append bytes (13 ∷ 10 ∷ rest),
)

sized_chunk-sent :
    (c : Chunk) (rest : List ℕ)
    → is_chunk c ≡ true
    → sized_chunk (chunk_size c.line) (c.bytes ++ (13 ∷ 10 ∷ rest)) ≡ chunk c.bytes rest
unfolding is_chunk sized_chunk
sized_chunk-sent c rest h = ground (arith, chunk_of-bytes c.bytes rest)

round_at_line :
    (line rest : List ℕ)
    → round_at (some (length line)) (line ++ (13 ∷ 10 ∷ rest)) ≡ sized_chunk (chunk_size line) rest
unfolding round_at
round_at_line line rest =
    ap (λ l. sized_chunk (chunk_size l) (drop (length line + 2) (line ++ (13 ∷ 10 ∷ rest))))
      (take-append line (13 ∷ 10 ∷ rest))
    ∙ ap (sized_chunk (chunk_size line)) (drop-append line 13 10 rest)

round-send_chunk :
    (c : Chunk) (rest : List ℕ) → is_chunk c ≡ true → round (send_chunk c rest) ≡ chunk c.bytes rest
unfolding round send_chunk is_chunk
round-send_chunk c rest h =
    let after = c.bytes ++ (13 ∷ 10 ∷ rest) in
    let free : lacks 13 c.line ≡ true = ground arith in
    ap (λ p. round_at p (c.line ++ (13 ∷ 10 ∷ after))) (position_of-lacks c.line after free)
    ∙ round_at_line c.line after
    ∙ sized_chunk-sent c rest h

round_end : (rest : List ℕ) → round (send [] rest) ≡ last
unfolding round send round_at sized_chunk chunk_of position_of starts_with chunk_size size_text
    from_utf8 from_str_radix parse_hex_digits trim before_first
round_end rest = refl

send_cons :
    (c : Chunk) (cs : List Chunk) (rest : List ℕ) → send (c ∷ cs) rest ≡ send_chunk c (send cs rest)
unfolding send
send_cons c cs rest = refl

-- Enough rounds for the chunks give their bytes.
chunks-send :
    (rounds : ℕ) (result : List ℕ) (cs : List Chunk) (rest : List ℕ)
    → length cs < rounds
    → are_chunks cs ≡ true
    → chunks rounds result (send cs rest) ≡ decoded (result ++ all_bytes cs)
unfolding chunks are_chunks all_bytes
chunks-send zero result cs rest l h = absurd (omega arith)
chunks-send (suc rounds) result [] rest l h = ground (arith, round_end rest, append-nil result)
chunks-send (suc rounds) result (c ∷ cs) rest l h = ground (
  arith,
  send_cons c cs rest,
  round-send_chunk c (send cs rest),
  chunks-send rounds (result ++ c.bytes) cs rest,
  append_assoc result c.bytes (all_bytes cs),
)

length-send : (cs : List Chunk) (rest : List ℕ) → length cs < length (send cs rest) + 1
unfolding send send_chunk
length-send [] rest = omega arith
length-send (c ∷ cs) rest = omega (
  arith,
  length-send cs rest,
  length-append c.line (13 ∷ 10 ∷ (c.bytes ++ (13 ∷ 10 ∷ send cs rest))),
  length-append c.bytes (13 ∷ 10 ∷ send cs rest),
)

-- Chunks that are sent one after another, each with a size line that gives its length, are decoded to their bytes in order, whatever follows the last chunk.
pub parse_chunked-send :
    (cs : List Chunk) (rest : List ℕ)
    → are_chunks cs ≡ true
    → parse_chunked (send cs rest) ≡ decoded (all_bytes cs)
unfolding parse_chunked
parse_chunked-send cs rest h =
    chunks-send (suc (length (send cs rest))) [] cs rest (omega (arith, length-send cs rest)) h
