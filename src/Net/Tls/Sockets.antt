-- ===== src/Net/Tls/Sockets.antt =====
-- The socket that a request of kernel/src/net/tls.rs has in the set of sockets.
use oci_kernel.Prelude.{
  ℕ, zero, suc, ◌≡◌, refl, ◌∙◌, arith, ◌==◌, inl, inr, if◌then◌else◌, Option, none, some,
  Option-cases, List, [], ◌∷◌, push,
}
use oci_kernel.Net.Tls.{
  Call, polled, added, removed, connected, sent, taken, Tcp, Statics, call, poll_next, Exchange,
  ended, unfinished, await_active,
}

unfoldable pub only_with : ℕ → Option ℕ → Option (Option ℕ)
only_with h none = none
only_with h (some i) = if h == i then some (some i) else none

-- The socket that is in the set after a call, where that call is allowed: a socket is added when there is none, and only the socket that is there is used or removed.
unfoldable pub use_socket : Call → Option ℕ → Option (Option ℕ)
unfolding only_with
use_socket (polled t) now = some now
use_socket (added h) none = some (some h)
use_socket (added h) (some i) = none
use_socket (removed h) none = none
use_socket (removed h) (some i) = if h == i then some none else none
use_socket (connected h ip port own) now = only_with h now
use_socket (sent h bytes) now = only_with h now
use_socket (taken h) now = only_with h now

-- The socket that is in the set after all the calls, if each was allowed.
unfoldable pub in_set : Option ℕ → List Call → Option (Option ℕ)
unfolding use_socket
in_set now [] = some now
in_set now (c ∷ cs) = elim (use_socket c now) [ none ↦ none | some after ↦ in_set after cs ]

in_set-push :
    (now next last : Option ℕ) (cs : List Call) (c : Call)
    → in_set now cs ≡ some next
    → use_socket c next ≡ some last
    → in_set now (push cs c) ≡ some last
unfolding in_set
in_set-push now next last [] c h k = ground arith
in_set-push now next last (d ∷ cs) c h k = elim (Option-cases (use_socket d now)) [
  | inl e ↦ absurd (ground arith)
  | inr (mid, e) ↦ let rest = in_set-push mid next last cs c (ground arith) k in ground arith
]

-- All calls were allowed, and `now` is in the set.
abbrev pub Has : Option ℕ → Statics → Type 0
Has now s = in_set none s.calls ≡ some now

-- No socket is left in the set where the exchange has ended, and one is there while it reads.
unfoldable pub IsReleased : Exchange → Type 0
IsReleased (ended result s) = Has none s
IsReleased (unfinished s) = (h : ℕ) × Has (some h) s

pub call-Has :
    (c : Call) (now next : Option ℕ) (s : Statics)
    → use_socket c now ≡ some next
    → Has now s
    → Has next (call c s)
unfolding call
call-Has c now next s k h = in_set-push none now next s.calls c h k

pub poll_next-Has : (now : Option ℕ) (s : Statics) → Has now s → Has now (poll_next s)
unfolding poll_next
poll_next-Has now s h = call-Has (polled s.poll_ticks) now now s (unfold use_socket in refl) h

pub used-Has :
    (c : Call) (h : ℕ) (s : Statics)
    → use_socket c (some h) ≡ only_with h (some h)
    → Has (some h) s
    → Has (some h) (call c s)
used-Has c h s e v = call-Has c (some h) (some h) s (e ∙ unfold only_with in (ground arith)) v

pub removed-Has : (h : ℕ) (s : Statics) → Has (some h) s → Has none (call (removed h) s)
removed-Has h s v = call-Has (removed h) (some h) none s (unfold use_socket in (ground arith)) v

pub await_active-Has :
    (tcp : Tcp) (left h : ℕ) (now : Option ℕ) (s : Statics)
    → Has now s
    → Has now (await_active tcp left h s)
unfolding await_active
await_active-Has tcp zero h now s v = v
await_active-Has tcp (suc left) h now s v =
    let asked = poll_next-Has now s v in
    ground (arith, asked, await_active-Has tcp left h now (poll_next s) asked)
