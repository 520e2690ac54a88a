-- ===== src/Net/Virtio/Window.antt =====
-- The entries of a ring of kernel/src/net/virtio_net.rs between two indices, which count on past the
-- length of the ring.
use oci_kernel.Prelude.{
  ℕ, zero, suc, ◌+◌, ◌-◌, ◌%◌, ◌<◌, ◌≤◌, ◌≡◌, ◌≢◌, refl, sym, ap, ◌∙◌, arith, List, [], ◌∷◌, push,
  length, get_or, set,
}
use oci_kernel.Net.Virtio.{queue_size, add_u16}

module _ {ℓ} {A : Type ℓ} (d : A) where
  -- The `n` entries from the index `from` on.
  unfoldable pub window : List A → ℕ → ℕ → List A
  window ring from zero = []
  window ring from (suc n) = get_or ring (from % queue_size) d ∷ window ring (from + 1) n

  -- Only the index within the ring matters.
  window_same :
      (ring : List A) (f g n : ℕ)
      → f % queue_size ≡ g % queue_size
      → window ring f n ≡ window ring g n
  unfolding window
  window_same ring f g zero h = refl
  window_same ring f g (suc n) h = rw (h, window_same ring (f + 1) (g + 1) n (omega arith)) refl

  -- The index may wrap as a `u16`.
  pub window-add_u16 :
      (ring : List A) (from n : ℕ) → window ring (add_u16 from 1) n ≡ window ring (from + 1) n
  window-add_u16 ring from n = window_same ring (add_u16 from 1) (from + 1) n (omega arith)

  pub get_or-set-same :
      (ring : List A) (i : ℕ) (v : A) → i < length ring → get_or (set ring i v) i d ≡ v
  get_or-set-same [] i v h = absurd (omega arith)
  get_or-set-same (x ∷ ring) zero v h = refl
  get_or-set-same (x ∷ ring) (suc i) v h = get_or-set-same ring i v (omega arith)

  get_or-set-other :
      (ring : List A) (i j : ℕ) (v : A) → i ≢ j → get_or (set ring i v) j d ≡ get_or ring j d
  get_or-set-other [] i j v h = refl
  get_or-set-other (x ∷ ring) zero zero v h = absurd (h refl)
  get_or-set-other (x ∷ ring) zero (suc j) v h = refl
  get_or-set-other (x ∷ ring) (suc i) zero v h = refl
  get_or-set-other (x ∷ ring) (suc i) (suc j) v h = get_or-set-other ring i j v (λ e. h (ap suc e))

  -- An entry that is written behind the window leaves it.
  window-set-behind :
      (ring : List A) (from n j p : ℕ) (v : A)
      → n ≤ j
      → j < queue_size
      → p ≡ (from + j) % queue_size
      → window (set ring p v) from n ≡ window ring from n
  unfolding window
  window-set-behind ring from zero j p v h k e = refl
  window-set-behind ring from (suc n) j p v h k e =
      let apart : p ≢ from % queue_size = λ q. omega arith in
      let first = get_or-set-other ring p (from % queue_size) v apart in
      let rest =
        window-set-behind ring (from + 1) n (j - 1) p v (omega arith) (omega arith) (omega arith) in
      rw (first, rest) refl

  -- An entry that is written at the end of the window is pushed.
  pub window-push :
      (ring : List A) (from n p : ℕ) (v : A)
      → length ring ≡ queue_size
      → n < queue_size
      → p ≡ (from + n) % queue_size
      → window (set ring p v) from (suc n) ≡ push (window ring from n) v
  unfolding window
  window-push ring from zero p v l h e =
      let at : p ≡ from % queue_size = omega arith in
      rw (sym at, get_or-set-same ring p v (omega arith)) refl
  window-push ring from (suc n) p v l h e =
      let apart : p ≢ from % queue_size = λ q. omega arith in
      let first = get_or-set-other ring p (from % queue_size) v apart in
      let rest = window-push ring (from + 1) n p v l (omega arith) (omega arith) in
      ap (λ x. x ∷ window (set ring p v) (from + 1) (suc n)) first
      ∙ ap (λ xs. get_or ring (from % queue_size) d ∷ xs) rest

  pub length-window : (ring : List A) (from n : ℕ) → length (window ring from n) ≡ n
  unfolding window
  length-window ring from zero = refl
  length-window ring from (suc n) = ap suc (length-window ring (from + 1) n)
