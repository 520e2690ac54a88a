-- ===== src/Net/Tls/Rng.antt =====
-- `KernelRng` of kernel/src/net/tls.rs. `words` are what the RDRAND instruction gives, the first
-- at index 0, once it succeeds; each loop over it ends with the next of them.
use oci_kernel.Prelude.{
  ℕ, zero, suc, ◌+◌, ◌-◌, ◌/◌, ◌%◌, ◌^◌, min, ◌==◌, if◌then◌else◌, List, [], ◌∷◌, ◌++◌, take,
}

-- `next_u32`: the low half of the word.
unfoldable pub next_u32 : (ℕ → ℕ) → ℕ → ℕ × ℕ
next_u32 words i = (words i % 2 ^ 32, i + 1)

unfoldable pub next_u64 : (ℕ → ℕ) → ℕ → ℕ × ℕ
next_u64 words i = (words i, i + 1)

-- `to_le_bytes`, of a number of bytes.
unfoldable pub le_bytes : ℕ → ℕ → List ℕ
le_bytes zero v = []
le_bytes (suc n) v = v % 256 ∷ le_bytes n (v / 256)

-- The loop of `fill_bytes` on fuel: `left` bytes of `dest` are not filled yet.
unfoldable pub fill_from : (ℕ → ℕ) → ℕ → ℕ → ℕ → List ℕ × ℕ
unfolding next_u64 le_bytes
fill_from words zero left i = ([], i)
fill_from words (suc fuel) left i =
    let (v, j) = next_u64 words i in
    let (rest, k) = fill_from words fuel (left - min left 8) j in
    if left == 0 then ([], i) else (take (min left 8) (le_bytes 8 v) ++ rest, k)

-- Each round fills a byte at least.
unfoldable pub fill_bytes : (ℕ → ℕ) → ℕ → ℕ → List ℕ × ℕ
unfolding fill_from
fill_bytes words len i = fill_from words len len i
