-- ===== src/Oci/Sha256.antt =====
-- SHA-256 of kernel/src/oci/registry.rs. Words are numbers below 2 ^ 32, bytes below 256; the arrays
-- are lists.
pub mod Digest
use oci_kernel.Prelude.{
  ℕ, zero, suc, ◌+◌, ◌-◌, ◌*◌, ◌/◌, ◌%◌, ◌^◌, bit_xor, bit_and, ltb, if◌then◌else◌, List, [], ◌∷◌,
  ◌++◌, length, get_or, take, drop, replicate, push,
}
use oci_kernel.Prelude.Text.{Text}

abbrev pub wrapping_add : ℕ → ℕ → ℕ
wrapping_add a b = (a + b) % 2 ^ 32

abbrev pub rotate_right : ℕ → ℕ → ℕ
rotate_right x n = x / 2 ^ n + x % 2 ^ n * 2 ^ (32 - n)

-- `!e`
abbrev pub complement : ℕ → ℕ
complement e = 2 ^ 32 - 1 - e

-- The hash state, and the working variables `a` to `hh`.
pub record Hash : Type 0 where
  pub a : ℕ
  pub b : ℕ
  pub c : ℕ
  pub d : ℕ
  pub e : ℕ
  pub f : ℕ
  pub g : ℕ
  pub hh : ℕ

unfoldable pub initial : Hash
initial = record {
  a = 0x6a09e667;
  b = 0xbb67ae85;
  c = 0x3c6ef372;
  d = 0xa54ff53a;
  e = 0x510e527f;
  f = 0x9b05688c;
  g = 0x1f83d9ab;
  hh = 0x5be0cd19;
}

unfoldable pub round_constants : List ℕ
round_constants =
    0x428a2f98 ∷ 0x71374491 ∷ 0xb5c0fbcf ∷ 0xe9b5dba5 ∷ 0x3956c25b ∷ 0x59f111f1 ∷ 0x923f82a4
    ∷ 0xab1c5ed5 ∷ 0xd807aa98 ∷ 0x12835b01 ∷ 0x243185be ∷ 0x550c7dc3 ∷ 0x72be5d74 ∷ 0x80deb1fe
    ∷ 0x9bdc06a7 ∷ 0xc19bf174 ∷ 0xe49b69c1 ∷ 0xefbe4786 ∷ 0x0fc19dc6 ∷ 0x240ca1cc ∷ 0x2de92c6f
    ∷ 0x4a7484aa ∷ 0x5cb0a9dc ∷ 0x76f988da ∷ 0x983e5152 ∷ 0xa831c66d ∷ 0xb00327c8 ∷ 0xbf597fc7
    ∷ 0xc6e00bf3 ∷ 0xd5a79147 ∷ 0x06ca6351 ∷ 0x14292967 ∷ 0x27b70a85 ∷ 0x2e1b2138 ∷ 0x4d2c6dfc
    ∷ 0x53380d13 ∷ 0x650a7354 ∷ 0x766a0abb ∷ 0x81c2c92e ∷ 0x92722c85 ∷ 0xa2bfe8a1 ∷ 0xa81a664b
    ∷ 0xc24b8b70 ∷ 0xc76c51a3 ∷ 0xd192e819 ∷ 0xd6990624 ∷ 0xf40e3585 ∷ 0x106aa070 ∷ 0x19a4c116
    ∷ 0x1e376c08 ∷ 0x2748774c ∷ 0x34b0bcb5 ∷ 0x391c0cb3 ∷ 0x4ed8aa4a ∷ 0x5b9cca4f ∷ 0x682e6ff3
    ∷ 0x748f82ee ∷ 0x78a5636f ∷ 0x84c87814 ∷ 0x8cc70208 ∷ 0x90befffa ∷ 0xa4506ceb ∷ 0xbef9a3f7
    ∷ 0xc67178f2 ∷ []

unfoldable pub padded_len : ℕ → ℕ
padded_len msg_len = (msg_len + 9 + 63) / 64 * 64

-- The bytes of a number in `n` places, the most significant first.
unfoldable pub be_bytes : ℕ → ℕ → List ℕ
be_bytes zero x = []
be_bytes (suc n) x = x / 256 ^ n % 256 ∷ be_bytes n x

unfoldable pub padded : List ℕ → List ℕ
unfolding padded_len be_bytes
padded bytes =
    let msg_len = length bytes in
    bytes
    ++ (0x80
        ∷ (replicate (padded_len msg_len - msg_len - 9) 0 ++ be_bytes 8 (msg_len * 8 % 2 ^ 64)))

-- The word at the index of the block.
abbrev pub word_at : List ℕ → ℕ → ℕ
word_at block i =
    get_or block (i * 4) 0 * 2 ^ 24
    + get_or block (i * 4 + 1) 0 * 2 ^ 16
    + get_or block (i * 4 + 2) 0 * 2 ^ 8
    + get_or block (i * 4 + 3) 0

-- The first loop over `w`, from the index `i`, with `left` words to go.
unfoldable pub load : List ℕ → ℕ → ℕ → List ℕ
load block i zero = []
load block i (suc left) = word_at block i ∷ load block (i + 1) left

unfoldable pub next_word : List ℕ → ℕ → ℕ
next_word w i =
    let w15 = get_or w (i - 15) 0 in
    let w2 = get_or w (i - 2) 0 in
    let s0 = bit_xor (bit_xor (rotate_right w15 7) (rotate_right w15 18)) (w15 / 2 ^ 3) in
    let s1 = bit_xor (bit_xor (rotate_right w2 17) (rotate_right w2 19)) (w2 / 2 ^ 10) in
    wrapping_add (wrapping_add (wrapping_add (get_or w (i - 16) 0) s0) (get_or w (i - 7) 0)) s1

-- The second loop over `w`.
unfoldable pub extend : ℕ → ℕ → List ℕ → List ℕ
unfolding next_word
extend i zero w = w
extend i (suc left) w = extend (i + 1) left (push w (next_word w i))

-- One round of the compression.
unfoldable pub compress_round : ℕ → ℕ → Hash → Hash
compress_round k w h =
    let s1 = bit_xor (bit_xor (rotate_right h.e 6) (rotate_right h.e 11)) (rotate_right h.e 25) in
    let ch = bit_xor (bit_and h.e h.f) (bit_and (complement h.e) h.g) in
    let temp1 = wrapping_add (wrapping_add (wrapping_add (wrapping_add h.hh s1) ch) k) w in
    let s0 = bit_xor (bit_xor (rotate_right h.a 2) (rotate_right h.a 13)) (rotate_right h.a 22) in
    let maj = bit_xor (bit_xor (bit_and h.a h.b) (bit_and h.a h.c)) (bit_and h.b h.c) in
    let temp2 = wrapping_add s0 maj in
    record {
      a = wrapping_add temp1 temp2;
      b = h.a;
      c = h.b;
      d = h.c;
      e = wrapping_add h.d temp1;
      f = h.e;
      g = h.f;
      hh = h.g;
    }

unfoldable pub compress_rounds : List ℕ → List ℕ → Hash → Hash
unfolding compress_round
compress_rounds (k ∷ ks) (w ∷ ws) h = compress_rounds ks ws (compress_round k w h)
compress_rounds (k ∷ ks) [] h = h
compress_rounds [] ws h = h

unfoldable pub add_hash : Hash → Hash → Hash
add_hash h v = record {
  a = wrapping_add h.a v.a;
  b = wrapping_add h.b v.b;
  c = wrapping_add h.c v.c;
  d = wrapping_add h.d v.d;
  e = wrapping_add h.e v.e;
  f = wrapping_add h.f v.f;
  g = wrapping_add h.g v.g;
  hh = wrapping_add h.hh v.hh;
}

unfoldable pub process_block : List ℕ → Hash → Hash
unfolding round_constants load extend compress_rounds add_hash
process_block block h =
    add_hash h (compress_rounds round_constants (extend 16 48 (load block 0 16)) h)

-- `chunks_exact(64)`, with the number of blocks that are left.
unfoldable pub process_blocks : ℕ → List ℕ → Hash → Hash
unfolding process_block
process_blocks zero bytes h = h
process_blocks (suc left) bytes h =
    process_blocks left (drop 64 bytes) (process_block (take 64 bytes) h)

unfoldable pub sha256 : List ℕ → List ℕ
unfolding initial padded process_blocks be_bytes
sha256 bytes =
    let p = padded bytes in
    let h = process_blocks (length p / 64) p initial in
    be_bytes 4 h.a
    ++ (be_bytes 4 h.b
        ++ (be_bytes 4 h.c
            ++ (be_bytes 4 h.d
                ++ (be_bytes 4 h.e ++ (be_bytes 4 h.f ++ (be_bytes 4 h.g ++ be_bytes 4 h.hh))))))

unfoldable pub hex_digit : ℕ → ℕ
hex_digit d = if ltb d 10 then b'0' + d else 87 + d

-- `{:02x}` of each byte.
unfoldable pub hex_encode : List ℕ → Text
unfolding hex_digit
hex_encode [] = []
hex_encode (b ∷ bs) = hex_digit (b / 16) ∷ hex_digit (b % 16) ∷ hex_encode bs
