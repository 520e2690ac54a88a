-- ===== src/Net/Tls/Given.antt =====
-- The bytes that the calls of kernel/src/net/tls.rs are given.
use mathlib.Core.List.{append-nil, append_assoc}
use oci_kernel.Prelude.{
  ℕ, ◌≡◌, sym, ap, ◌∙◌, Option, none, some, List, [], ◌∷◌, ◌++◌, push, ok, err,
}
use oci_kernel.Net.Tls.{
  Call, polled, added, removed, connected, sent, taken, Tcp, Statics, Exchange, ended, unfinished,
}

unfoldable pub bytes_of : Option (List ℕ) → List ℕ
bytes_of none = []
bytes_of (some bytes) = bytes

-- The bytes that a call gives, after the calls `seen`.
unfoldable pub piece : Tcp → List Call → Call → List ℕ
piece tcp seen (taken h) = bytes_of (tcp.recv seen h)
piece tcp seen (polled t) = []
piece tcp seen (added h) = []
piece tcp seen (removed h) = []
piece tcp seen (connected h ip port own) = []
piece tcp seen (sent h bytes) = []

-- The bytes that some calls give in their order, after the calls `seen`.
unfoldable pub delivered : Tcp → List Call → List Call → List ℕ
delivered tcp seen [] = []
delivered tcp seen (c ∷ cs) = piece tcp seen c ++ delivered tcp (push seen c) cs

pub delivered-push :
    (tcp : Tcp) (seen cs : List Call) (c : Call)
    → delivered tcp seen (push cs c) ≡ delivered tcp seen cs ++ piece tcp (seen ++ cs) c
unfolding delivered
delivered-push tcp seen [] c =
    append-nil (piece tcp seen c) ∙ ap (λ l. piece tcp l c) (sym (append-nil seen))
delivered-push tcp seen (d ∷ cs) c =
    ap (λ l. piece tcp seen d ++ l) (delivered-push tcp (push seen d) cs c)
    ∙ sym (
        append_assoc (piece tcp seen d) (delivered tcp (push seen d) cs)
          (piece tcp (push seen d ++ cs) c))
    ∙ ap (λ l. (piece tcp seen d ++ delivered tcp (push seen d) cs) ++ piece tcp l c)
        (append_assoc seen (d ∷ []) cs)

-- From `s` on, the calls have given the bytes `bytes`.
pub record Gave (tcp : Tcp) (s : Statics) (bytes : List ℕ) (s' : Statics) : Type 0 where
  pub since : List Call
  pub appended : s'.calls ≡ s.calls ++ since
  pub given : delivered tcp s.calls since ≡ bytes

-- A response is what was delivered; with an error nothing was.
unfoldable pub IsDelivered : Tcp → Statics → Exchange → Type 0
IsDelivered tcp s (ended (ok response) s') = Gave tcp s response s'
IsDelivered tcp s (ended (err e) s') = Gave tcp s [] s'
IsDelivered tcp s (unfinished s') = (bytes : List ℕ) × Gave tcp s bytes s'
