-- ===== src/Net/Virtio/Owned.antt =====
-- Each receive buffer of kernel/src/net/virtio_net.rs has one owner.
use oci_kernel.Prelude.{
  ℕ, ◌+◌, ◌%◌, ◌^◌, ◌<◌, ◌≡◌, refl, ap, arith, ltb, ◌==◌, if◌then◌else◌, List, [], ◌∷◌, ◌++◌, push,
  length,
}
use oci_kernel.Net.Virtio.{VirtqUsedElem, queue_size, no_elem}
use oci_kernel.Net.Virtio.Window.{window}
use oci_kernel.Net.Virtio.Link.{Link}

-- How often a number stands in a list.
unfoldable pub occurrences : ℕ → List ℕ → ℕ
occurrences i [] = 0
occurrences i (x ∷ xs) = (if x == i then 1 else 0) + occurrences i xs

pub occurrences_cons :
    (i x : ℕ) (xs : List ℕ) → occurrences i (x ∷ xs) ≡ (if x == i then 1 else 0) + occurrences i xs
unfolding occurrences
occurrences_cons i x xs = refl

pub occurrences_nil : (i : ℕ) → occurrences i [] ≡ 0
unfolding occurrences
occurrences_nil i = refl

pub occurrences-append :
    (i : ℕ) (xs ys : List ℕ) → occurrences i (xs ++ ys) ≡ occurrences i xs + occurrences i ys
unfolding occurrences
occurrences-append i [] ys = omega arith
occurrences-append i (x ∷ xs) ys = omega (arith, occurrences-append i xs ys)

unfoldable pub ids : List VirtqUsedElem → List ℕ
ids [] = []
ids (e ∷ es) = e.id ∷ ids es

pub ids-push : (es : List VirtqUsedElem) (e : VirtqUsedElem) → ids (push es e) ≡ push (ids es) e.id
unfolding ids
ids-push [] e = refl
ids-push (x ∷ es) e = ap (λ xs. x.id ∷ xs) (ids-push es e)

-- The entries that the device has not taken, and those that the driver has not received.
unfoldable pub available : Link → ℕ → List ℕ
unfolding window
available l n = window 0 l.driver.rx_queue.avail_ring l.taken n

unfoldable pub used : Link → ℕ → List ℕ
unfolding window ids
used l n = ids (window no_elem l.driver.rx_queue.used_ring l.driver.rx_last_used n)

-- The buffers on their way round: available, with the device, used.
unfoldable pub owned : Link → ℕ → ℕ → List ℕ
unfolding available used
owned l n m = available l n ++ (l.held ++ used l m)

-- The indices enclose `n` available and `m` used entries, and every buffer has exactly one owner.
pub record IsOwned (l : Link) (n m : ℕ) : Type 0 where
  pub avail_fits : l.driver.rx_queue.avail_idx ≡ (l.taken + n) % 2 ^ 16
  pub used_fits : l.driver.rx_queue.used_idx ≡ (l.driver.rx_last_used + m) % 2 ^ 16
  pub taken_fits : l.taken < 2 ^ 16
  pub last_fits : l.driver.rx_last_used < 2 ^ 16
  pub avail_length : length l.driver.rx_queue.avail_ring ≡ queue_size
  pub used_length : length l.driver.rx_queue.used_ring ≡ queue_size
  pub bufs_length : length l.driver.rx_bufs ≡ queue_size
  pub total : n + length l.held + m ≡ queue_size
  pub once : (i : ℕ) → occurrences i (owned l n m) ≡ (if ltb i queue_size then 1 else 0)

-- The owners of a buffer, counted apart.
pub occurrences-owned :
    (i : ℕ) (l : Link) (n m : ℕ)
    → occurrences i (owned l n m)
      ≡ occurrences i (available l n) + occurrences i l.held + occurrences i (used l m)
unfolding owned
occurrences-owned i l n m = omega (
  arith,
  occurrences-append i (available l n) (l.held ++ used l m),
  occurrences-append i l.held (used l m),
)
