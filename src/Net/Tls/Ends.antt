-- ===== src/Net/Tls/Ends.antt =====
-- `https_request` of kernel/src/net/tls.rs ends once its peer has nothing more to say.
use oci_kernel.Prelude.{
  ℕ, zero, suc, ◌+◌, ◌≤◌, ◌<◌, ◌≡◌, refl, ◌∙◌, arith, Bool, true, false, leb, Bool-cases,
  if◌then◌else◌, Option, none, some, Option-cases, inl, inr, List, [], ◌∷◌, ◌++◌, push, ok, err,
}
use oci_kernel.Prelude.Text.{Text}
use oci_kernel.Net.Tls.{
  Call, polled, added, removed, connected, sent, taken, Tcp, Statics, TlsConnectError, no_network,
  tcp_failed, resolve_host, call, poll_next, local_port, Exchange, ended, unfinished, await_active,
  read_response, send_request, connect_polls, await_and_send, exchange_with, https_request,
}

unfoldable pub polls_in : List Call → ℕ
polls_in [] = 0
polls_in (polled t ∷ cs) = 1 + polls_in cs
polls_in (added h ∷ cs) = polls_in cs
polls_in (removed h ∷ cs) = polls_in cs
polls_in (connected h ip port own ∷ cs) = polls_in cs
polls_in (sent h bytes ∷ cs) = polls_in cs
polls_in (taken h ∷ cs) = polls_in cs

polls_in-push : (cs : List Call) (c : Call) → polls_in (push cs c) ≡ polls_in cs + polls_in (c ∷ [])
unfolding polls_in
polls_in-push [] c = omega arith
polls_in-push (polled t ∷ cs) c = omega (arith, polls_in-push cs c)
polls_in-push (added h ∷ cs) c = polls_in-push cs c
polls_in-push (removed h ∷ cs) c = polls_in-push cs c
polls_in-push (connected h ip port own ∷ cs) c = polls_in-push cs c
polls_in-push (sent h bytes ∷ cs) c = polls_in-push cs c
polls_in-push (taken h ∷ cs) c = polls_in-push cs c

unfoldable pub has_ended : Exchange → Bool
has_ended (ended result s) = true
has_ended (unfinished s) = false

if-has_ended :
    (b : Bool) (x y : Exchange)
    → has_ended x ≡ true
    → has_ended y ≡ true
    → has_ended (if b then x else y) ≡ true
if-has_ended true x y v w = v
if-has_ended false x y v w = w

module _ (tcp : Tcp) (limit : ℕ)
    (falls_silent : (calls : List Call) (h : ℕ)
      → limit ≤ polls_in calls
      → tcp.recv calls h ≡ none) where
  -- Either the receive fails, or the limit is not reached.
  still_talking :
      (calls : List Call) (h : ℕ) (chunk : List ℕ)
      → tcp.recv calls h ≡ some chunk
      → polls_in calls < limit
  still_talking calls h chunk e = elim (Bool-cases (leb limit (polls_in calls))) [
    | inl l ↦ absurd (ground (arith, falls_silent calls h (ground arith)))
    | inr l ↦ ground arith
  ]

  read-has_ended :
      (o : Option (List ℕ)) (x : Exchange) (f : List ℕ → Exchange)
      → has_ended x ≡ true
      → ((chunk : List ℕ) → o ≡ some chunk → has_ended (f chunk) ≡ true)
      → has_ended (elim o [ none ↦ x | some chunk ↦ f chunk ]) ≡ true
  read-has_ended none x f v w = v
  read-has_ended (some chunk) x f v w = w chunk refl

  polls_in-asked : (s : Statics) → polls_in (poll_next s).calls ≡ polls_in s.calls + 1
  unfolding poll_next call
  polls_in-asked s = polls_in-push s.calls (polled s.poll_ticks) ∙ unfold polls_in in refl

  polls_in-read :
      (h : ℕ) (s : Statics) → polls_in (call (taken h) (poll_next s)).calls ≡ polls_in s.calls + 1
  unfolding call
  polls_in-read h s =
      let none_more : polls_in (taken h ∷ []) ≡ 0 = unfold polls_in in refl in
      omega (arith, polls_in-push (poll_next s).calls (taken h), polls_in-asked s, none_more)

  read_response-has_ended :
      (fuel h : ℕ) (response : List ℕ) (s : Statics)
      → limit ≤ polls_in s.calls + fuel
      → has_ended (read_response tcp (suc fuel) h response s) ≡ true
  unfolding read_response has_ended
  read_response-has_ended zero h response s l =
      let asked = poll_next s in
      let silent : tcp.recv asked.calls h ≡ none =
        falls_silent asked.calls h (omega (arith, polls_in-asked s)) in
      ground arith
  read_response-has_ended (suc fuel) h response s l =
      let asked = poll_next s in
      let read = call (taken h) asked in
      read-has_ended (tcp.recv asked.calls h) (ended (ok response) (call (removed h) read))
        (λ chunk.
          (if tcp.may_recv read.calls h
            then read_response tcp (suc fuel) h (response ++ chunk) read
            else ended (ok (response ++ chunk)) (call (removed h) read)))
        refl
        (λ chunk e.
          if-has_ended (tcp.may_recv read.calls h)
            (read_response tcp (suc fuel) h (response ++ chunk) read)
            (ended (ok (response ++ chunk)) (call (removed h) read))
            (read_response-has_ended fuel h (response ++ chunk) read
              (omega (arith, polls_in-read h s, still_talking asked.calls h chunk e)))
            refl)

  send_request-has_ended :
      (fuel h : ℕ) (request : List ℕ) (s : Statics)
      → limit ≤ fuel
      → has_ended (send_request tcp (suc fuel) h request s) ≡ true
  unfolding send_request
  send_request-has_ended fuel h request s l =
      let asked = call (sent h request) s in
      if-has_ended (tcp.sends s.calls h) (read_response tcp (suc fuel) h [] asked)
        (ended (err tcp_failed) (call (removed h) asked))
        (read_response-has_ended fuel h [] asked (omega arith)) (unfold has_ended in refl)

  await_and_send-has_ended :
      (fuel h : ℕ) (request : List ℕ) (s : Statics)
      → limit ≤ fuel
      → has_ended (await_and_send tcp (suc fuel) h request s) ≡ true
  unfolding await_and_send
  await_and_send-has_ended fuel h request s l =
      let waited = await_active tcp (connect_polls tcp) h s in
      if-has_ended (tcp.is_active waited.calls h) (send_request tcp (suc fuel) h request waited)
        (ended (err tcp_failed) (call (removed h) waited))
        (send_request-has_ended fuel h request waited l) (unfold has_ended in refl)

  exchange_with-has_ended :
      (fuel : ℕ) (ip : List ℕ) (port : ℕ) (request : List ℕ) (s : Statics)
      → limit ≤ fuel
      → has_ended (exchange_with tcp (suc fuel) ip port request s) ≡ true
  unfolding exchange_with
  exchange_with-has_ended fuel ip port request s l =
      let h = tcp.add s.calls in
      let (own_port, ready) = local_port (call (added h) s) in
      let asked = call (connected h ip port own_port) ready in
      if-has_ended (tcp.connects ready.calls h) (await_and_send tcp (suc fuel) h request asked)
        (ended (err tcp_failed) (call (removed h) asked))
        (await_and_send-has_ended fuel h request asked l) (unfold has_ended in refl)

  -- If every receive fails once there were `limit` polls, since the peer has closed by then, then a request ends within one more round of its loop than that, with a response or an error.
  pub https_request-has_ended :
      (host : Text) (port : ℕ) (request : List ℕ) (s : Statics)
      → has_ended (https_request tcp (suc limit) host port request s) ≡ true
  https_request-has_ended host port request s =
      let failed : (e : TlsConnectError) → has_ended (ended (err e) s) ≡ true =
        unfold has_ended in (λ e. refl) in
      let exchanged : (ip : List ℕ)
          → has_ended (exchange_with tcp (suc limit) ip port request s) ≡ true =
        λ ip. exchange_with-has_ended limit ip port request s (omega arith) in
      unfold https_request in
      (elim (Option-cases (resolve_host host)) [
        | inl e ↦ ground (arith, failed tcp_failed, failed no_network)
        | inr (ip, e) ↦ ground (arith, failed no_network, exchanged ip)
      ])
