-- ===== src/Net/Tls/Delivered.antt =====
-- What `https_request` of kernel/src/net/tls.rs returns.
use mathlib.Core.List.{append-nil, append_assoc}
use oci_kernel.Prelude.{
  ℕ, zero, suc, ◌≡◌, refl, sym, ap, ◌∙◌, arith, Bool, true, false, if◌then◌else◌, Option, none,
  some, Option-cases, inl, inr, List, [], ◌∷◌, ◌++◌, push, ok, err,
}
use oci_kernel.Prelude.Text.{Text}
use oci_kernel.Net.Tls.{
  Call, polled, added, removed, connected, sent, taken, Tcp, Statics, TlsConnectError, no_network,
  tcp_failed, resolve_host, call, poll_next, local_port, Exchange, ended, await_active,
  read_response, send_request, connect_polls, await_and_send, exchange_with, https_request,
}
use oci_kernel.Net.Tls.Given.{bytes_of, piece, delivered, delivered-push, Gave, IsDelivered}

module _ (tcp : Tcp) (s : Statics) where
  none_yet : Gave tcp s [] s
  none_yet = record {
    since = [];
    appended = sym (append-nil s.calls);
    given = unfold delivered in refl;
  }

  call-Gave :
      (c : Call) (bytes : List ℕ) (s' : Statics)
      → Gave tcp s bytes s'
      → Gave tcp s (bytes ++ piece tcp s'.calls c) (call c s')
  unfolding call
  call-Gave c bytes s' v = record {
    since = push v.since c;
    appended = ap (λ cs. cs ++ (c ∷ [])) v.appended ∙ append_assoc s.calls v.since (c ∷ []);
    given =
        delivered-push tcp s.calls v.since c
        ∙ ap (λ l. l ++ piece tcp (s.calls ++ v.since) c) v.given
        ∙ ap (λ l. bytes ++ piece tcp l c) (sym v.appended);
  }

  -- A call that gives nothing.
  silent-Gave :
      (c : Call) (bytes : List ℕ) (s' : Statics)
      → piece tcp s'.calls c ≡ []
      → Gave tcp s bytes s'
      → Gave tcp s bytes (call c s')
  silent-Gave c bytes s' e v =
      let g = call-Gave c bytes s' v in
      record {
        since = g.since;
        appended = g.appended;
        given = g.given ∙ ap (λ l. bytes ++ l) e ∙ append-nil bytes;
      }

  poll_next-Gave :
      (bytes : List ℕ) (s' : Statics) → Gave tcp s bytes s' → Gave tcp s bytes (poll_next s')
  unfolding poll_next
  poll_next-Gave bytes s' v =
      let g = silent-Gave (polled s'.poll_ticks) bytes s' (unfold piece in refl) v in
      record { since = g.since; appended = g.appended; given = g.given }

  await_active-Gave :
      (left h : ℕ) (s' : Statics) → Gave tcp s [] s' → Gave tcp s [] (await_active tcp left h s')
  unfolding await_active
  await_active-Gave zero h s' v = v
  await_active-Gave (suc left) h s' v =
      let asked = poll_next-Gave [] s' v in
      ground (arith, asked, await_active-Gave left h (poll_next s') asked)

  if-IsDelivered :
      (b : Bool) (x y : Exchange)
      → IsDelivered tcp s x
      → IsDelivered tcp s y
      → IsDelivered tcp s (if b then x else y)
  if-IsDelivered true x y v w = v
  if-IsDelivered false x y v w = w

  read-IsDelivered :
      (o : Option (List ℕ)) (x : Exchange) (f : List ℕ → Exchange)
      → (o ≡ none → IsDelivered tcp s x)
      → ((chunk : List ℕ) → o ≡ some chunk → IsDelivered tcp s (f chunk))
      → IsDelivered tcp s (elim o [ none ↦ x | some chunk ↦ f chunk ])
  read-IsDelivered none x f v w = v refl
  read-IsDelivered (some chunk) x f v w = w chunk refl

  failed-IsDelivered :
      (h : ℕ) (s' : Statics)
      → Gave tcp s [] s'
      → IsDelivered tcp s (ended (err tcp_failed) (call (removed h) s'))
  unfolding IsDelivered
  failed-IsDelivered h s' v = silent-Gave (removed h) [] s' (unfold piece in refl) v

  responded-IsDelivered :
      (h : ℕ) (response : List ℕ) (s' : Statics)
      → Gave tcp s response s'
      → IsDelivered tcp s (ended (ok response) (call (removed h) s'))
  unfolding IsDelivered
  responded-IsDelivered h response s' v =
      silent-Gave (removed h) response s' (unfold piece in refl) v

  taken-Gave :
      (h : ℕ) (response chunk : List ℕ) (s' : Statics)
      → bytes_of (tcp.recv s'.calls h) ≡ chunk
      → Gave tcp s response s'
      → Gave tcp s (response ++ chunk) (call (taken h) s')
  taken-Gave h response chunk s' e v =
      let g = call-Gave (taken h) response s' v in
      record {
        since = g.since;
        appended = g.appended;
        given = g.given ∙ unfold piece in ap (λ l. response ++ l) e;
      }

  read_response-IsDelivered :
      (fuel h : ℕ) (response : List ℕ) (s' : Statics)
      → Gave tcp s response s'
      → IsDelivered tcp s (read_response tcp fuel h response s')
  unfolding read_response IsDelivered bytes_of piece
  read_response-IsDelivered zero h response s' v = (response, v)
  read_response-IsDelivered (suc fuel) h response s' v =
      let asked = poll_next s' in
      let read = call (taken h) asked in
      let waited = poll_next-Gave response s' v in
      read-IsDelivered (tcp.recv asked.calls h) (ended (ok response) (call (removed h) read))
        (λ chunk.
          (if tcp.may_recv read.calls h
            then read_response tcp fuel h (response ++ chunk) read
            else ended (ok (response ++ chunk)) (call (removed h) read)))
        (λ e.
          responded-IsDelivered h response read
            (silent-Gave (taken h) response asked (ap bytes_of e) waited))
        (λ chunk e.
          let more = taken-Gave h response chunk asked (ap bytes_of e) waited in
          if-IsDelivered (tcp.may_recv read.calls h)
            (read_response tcp fuel h (response ++ chunk) read)
            (ended (ok (response ++ chunk)) (call (removed h) read))
            (read_response-IsDelivered fuel h (response ++ chunk) read more)
            (responded-IsDelivered h (response ++ chunk) read more))

  send_request-IsDelivered :
      (fuel h : ℕ) (request : List ℕ) (s' : Statics)
      → Gave tcp s [] s'
      → IsDelivered tcp s (send_request tcp fuel h request s')
  unfolding send_request piece
  send_request-IsDelivered fuel h request s' v =
      let asked = call (sent h request) s' in
      let kept = silent-Gave (sent h request) [] s' refl v in
      if-IsDelivered (tcp.sends s'.calls h) (read_response tcp fuel h [] asked)
        (ended (err tcp_failed) (call (removed h) asked))
        (read_response-IsDelivered fuel h [] asked kept) (failed-IsDelivered h asked kept)

  await_and_send-IsDelivered :
      (fuel h : ℕ) (request : List ℕ) (s' : Statics)
      → Gave tcp s [] s'
      → IsDelivered tcp s (await_and_send tcp fuel h request s')
  unfolding await_and_send
  await_and_send-IsDelivered fuel h request s' v =
      let waited = await_active tcp (connect_polls tcp) h s' in
      let kept = await_active-Gave (connect_polls tcp) h s' v in
      if-IsDelivered (tcp.is_active waited.calls h) (send_request tcp fuel h request waited)
        (ended (err tcp_failed) (call (removed h) waited))
        (send_request-IsDelivered fuel h request waited kept) (failed-IsDelivered h waited kept)

  exchange_with-IsDelivered :
      (fuel : ℕ) (ip : List ℕ) (port : ℕ) (request : List ℕ)
      → IsDelivered tcp s (exchange_with tcp fuel ip port request s)
  unfolding exchange_with piece
  exchange_with-IsDelivered fuel ip port request =
      let h = tcp.add s.calls in
      let (own_port, ready) = local_port (call (added h) s) in
      let first = silent-Gave (added h) [] s refl none_yet in
      let there : Gave tcp s [] ready =
        unfold local_port in
        record { since = first.since; appended = first.appended; given = first.given } in
      let asked = call (connected h ip port own_port) ready in
      let kept = silent-Gave (connected h ip port own_port) [] ready refl there in
      if-IsDelivered (tcp.connects ready.calls h) (await_and_send tcp fuel h request asked)
        (ended (err tcp_failed) (call (removed h) asked))
        (await_and_send-IsDelivered fuel h request asked kept) (failed-IsDelivered h asked kept)

  -- Whatever the sockets answer: the response of a request is exactly the bytes that the calls since its start gave, in their order, and where the request fails they gave none.
  pub https_request-IsDelivered :
      (fuel : ℕ) (host : Text) (port : ℕ) (request : List ℕ)
      → IsDelivered tcp s (https_request tcp fuel host port request s)
  https_request-IsDelivered fuel host port request =
      let nothing : (e : TlsConnectError) → IsDelivered tcp s (ended (err e) s) =
        unfold IsDelivered in (λ e. none_yet) in
      let exchanged : (ip : List ℕ) → IsDelivered tcp s (exchange_with tcp fuel ip port request s) =
        λ ip. exchange_with-IsDelivered fuel ip port request in
      unfold https_request in
      (elim (Option-cases (resolve_host host)) [
        | inl e ↦ ground (arith, nothing tcp_failed, nothing no_network)
        | inr (ip, e) ↦ ground (arith, nothing no_network, exchanged ip)
      ])
