-- ===== src/Net/Tls/Released.antt =====
-- `https_request` of kernel/src/net/tls.rs gives each socket back.
use oci_kernel.Prelude.{
  ℕ, zero, suc, refl, arith, Bool, true, false, inl, inr, if◌then◌else◌, Option, none, some,
  Option-cases, List, [], ◌++◌, Result, ok, err,
}
use oci_kernel.Prelude.Text.{Text}
use oci_kernel.Net.Tls.{
  added, removed, connected, sent, taken, Tcp, Statics, TlsConnectError, no_network, tcp_failed,
  resolve_host, call, poll_next, local_port, Exchange, ended, await_active, read_response,
  send_request, connect_polls, await_and_send, exchange_with, https_request,
}
use oci_kernel.Net.Tls.Sockets.{
  use_socket, Has, IsReleased, call-Has, poll_next-Has, used-Has, removed-Has, await_active-Has,
}

-- An exchange that gives the socket back with this result.
given_back-IsReleased :
    (r : Result (List ℕ) TlsConnectError) (h : ℕ) (s : Statics)
    → Has (some h) s
    → IsReleased (ended r (call (removed h) s))
unfolding IsReleased
given_back-IsReleased r h s v = removed-Has h s v

if-IsReleased :
    (b : Bool) (x y : Exchange) → IsReleased x → IsReleased y → IsReleased (if b then x else y)
if-IsReleased true x y v w = v
if-IsReleased false x y v w = w

read-IsReleased :
    (o : Option (List ℕ)) (x : Exchange) (f : List ℕ → Exchange)
    → IsReleased x
    → ((chunk : List ℕ) → IsReleased (f chunk))
    → IsReleased (elim o [ none ↦ x | some chunk ↦ f chunk ])
read-IsReleased none x f v w = v
read-IsReleased (some chunk) x f v w = w chunk

module _ (tcp : Tcp) where
  read_response-IsReleased :
      (fuel h : ℕ) (response : List ℕ) (s : Statics)
      → Has (some h) s
      → IsReleased (read_response tcp fuel h response s)
  unfolding read_response IsReleased use_socket
  read_response-IsReleased zero h response s v = (h, v)
  read_response-IsReleased (suc fuel) h response s v =
      let asked = poll_next s in
      let read = call (taken h) asked in
      let kept = used-Has (taken h) h asked refl (poll_next-Has (some h) s v) in
      read-IsReleased (tcp.recv asked.calls h) (ended (ok response) (call (removed h) read))
        (λ chunk.
          (if tcp.may_recv read.calls h
            then read_response tcp fuel h (response ++ chunk) read
            else ended (ok (response ++ chunk)) (call (removed h) read)))
        (given_back-IsReleased (ok response) h read kept)
        (λ chunk.
          if-IsReleased (tcp.may_recv read.calls h)
            (read_response tcp fuel h (response ++ chunk) read)
            (ended (ok (response ++ chunk)) (call (removed h) read))
            (read_response-IsReleased fuel h (response ++ chunk) read kept)
            (given_back-IsReleased (ok (response ++ chunk)) h read kept))

  send_request-IsReleased :
      (fuel h : ℕ) (request : List ℕ) (s : Statics)
      → Has (some h) s
      → IsReleased (send_request tcp fuel h request s)
  unfolding send_request use_socket
  send_request-IsReleased fuel h request s v =
      let asked = call (sent h request) s in
      let kept = used-Has (sent h request) h s refl v in
      if-IsReleased (tcp.sends s.calls h) (read_response tcp fuel h [] asked)
        (ended (err tcp_failed) (call (removed h) asked))
        (read_response-IsReleased fuel h [] asked kept)
        (given_back-IsReleased (err tcp_failed) h asked kept)

  await_and_send-IsReleased :
      (fuel h : ℕ) (request : List ℕ) (s : Statics)
      → Has (some h) s
      → IsReleased (await_and_send tcp fuel h request s)
  unfolding await_and_send
  await_and_send-IsReleased fuel h request s v =
      let waited = await_active tcp (connect_polls tcp) h s in
      let kept = await_active-Has tcp (connect_polls tcp) h (some h) s v in
      if-IsReleased (tcp.is_active waited.calls h) (send_request tcp fuel h request waited)
        (ended (err tcp_failed) (call (removed h) waited))
        (send_request-IsReleased fuel h request waited kept)
        (given_back-IsReleased (err tcp_failed) h waited kept)

  exchange_with-IsReleased :
      (fuel : ℕ) (ip : List ℕ) (port : ℕ) (request : List ℕ) (s : Statics)
      → Has none s
      → IsReleased (exchange_with tcp fuel ip port request s)
  unfolding exchange_with use_socket
  exchange_with-IsReleased fuel ip port request s v =
      let h = tcp.add s.calls in
      let (own_port, ready) = local_port (call (added h) s) in
      let added_one = call-Has (added h) none (some h) s refl v in
      let there : Has (some h) ready = unfold local_port in added_one in
      let asked = call (connected h ip port own_port) ready in
      let kept = used-Has (connected h ip port own_port) h ready refl there in
      if-IsReleased (tcp.connects ready.calls h) (await_and_send tcp fuel h request asked)
        (ended (err tcp_failed) (call (removed h) asked))
        (await_and_send-IsReleased fuel h request asked kept)
        (given_back-IsReleased (err tcp_failed) h asked kept)

  -- Whatever the sockets answer: if the set is empty when a request is made and every call before was allowed, then a request that ends, with a response or an error, has used no other socket than the one that it added, and leaves the set empty; while it reads, that socket is there.
  pub https_request-IsReleased :
      (fuel : ℕ) (host : Text) (port : ℕ) (request : List ℕ) (s : Statics)
      → Has none s
      → IsReleased (https_request tcp fuel host port request s)
  https_request-IsReleased fuel host port request s v =
      let nothing : (r : Result (List ℕ) TlsConnectError) → IsReleased (ended r s) =
        unfold IsReleased in (λ r. v) in
      elim (Option-cases (resolve_host host)) [
        | inl e ↦
            unfold https_request in
            (ground (arith, nothing (err tcp_failed), nothing (err no_network)))
        | inr (ip, e) ↦
            let exchanged = exchange_with-IsReleased fuel ip port request s v in
            unfold https_request in (ground (arith, nothing (err no_network), exchanged))
      ]
