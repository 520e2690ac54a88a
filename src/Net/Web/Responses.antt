-- ===== src/Net/Web/Responses.antt =====
-- Each connection to the responder of kernel/src/net/mod.rs gets one response.
use oci_kernel.Prelude.{
  ℕ, zero, suc, ◌≡◌, refl, ◌∙◌, arith, Bool, true, false, inl, inr, Option-cases, List, [], ◌∷◌,
  push,
}
use oci_kernel.Net.Web.{
  TcpState, closed, listen, syn_sent, syn_received, established, fin_wait1, fin_wait2, close_wait,
  closing, last_ack, time_wait, received, Tcp, Statics, after_init, poll_stack, poll,
  setup_http_listener, drain, drain_rounds, answer, react, serve_locked, serve_http_once, Event,
  serves, polls, run,
}
use oci_kernel.Net.Web.Fair.{
  responded, is_fair, IsServing, poll_stack-IsServing, poll-IsServing, rearm-IsServing,
  received-IsServing, answered-IsServing,
}

module _ (tcp : Tcp) where
  drain-IsServing :
      (fuel h : ℕ) (s : Statics)
      → IsServing s
      → IsServing (drain tcp fuel h s) × ((drain tcp fuel h s).http_responded ≡ s.http_responded)
  unfolding drain
  drain-IsServing zero h s v = (v, refl)
  drain-IsServing (suc fuel) h s v =
      let taken = record s { calls = push s.calls (received h) } in
      let kept = received-IsServing h s v in
      let rest = drain-IsServing fuel h taken kept in
      elim (Option-cases (tcp.recv s.calls h)) [
        | inl e ↦ (ground (arith, kept), ground arith)
        | inr (n, e) ↦ (ground (arith, kept, rest.0), ground (arith, rest.1))
      ]

  answer-IsServing :
      (h : ℕ) (s : Statics) → s.http_responded ≡ false → IsServing s → IsServing (answer tcp h s)
  answer-IsServing h s e v =
      let (kept, same) = drain-IsServing (drain_rounds tcp) h s v in
      let answered = answered-IsServing h (drain tcp (drain_rounds tcp) h s) (same ∙ e) kept in
      unfold answer in (ground (arith, kept, answered, v))

  react-IsServing :
      (state : TcpState) (h : ℕ) (s : Statics) → IsServing s → IsServing (react tcp state h s)
  unfolding react
  react-IsServing closed h s v = rearm-IsServing h s v
  react-IsServing time_wait h s v = rearm-IsServing h s v
  react-IsServing established h s v = ground (arith, answer-IsServing h s)
  react-IsServing listen h s v = v
  react-IsServing syn_sent h s v = v
  react-IsServing syn_received h s v = v
  react-IsServing fin_wait1 h s v = v
  react-IsServing fin_wait2 h s v = v
  react-IsServing close_wait h s v = v
  react-IsServing closing h s v = v
  react-IsServing last_ack h s v = v

  serve_locked-IsServing : (h : ℕ) (s : Statics) → IsServing s → IsServing (serve_locked tcp h s)
  unfolding serve_locked
  serve_locked-IsServing h s v =
      react-IsServing (tcp.state (poll_stack s).calls h) h (poll_stack s) (poll_stack-IsServing s v)

  serve_http_once-IsServing :
      (unlocked : Bool) (s : Statics) → IsServing s → IsServing (serve_http_once tcp unlocked s)
  serve_http_once-IsServing unlocked s v = elim (Option-cases s.http_handle) [
    | inl e ↦ unfold serve_http_once in (ground (arith, v))
    | inr (h, e) ↦ unfold serve_http_once in (ground (arith, v, serve_locked-IsServing h s v))
  ]

  run-IsServing : (events : List Event) (s : Statics) → IsServing s → IsServing (run tcp events s)
  unfolding run
  run-IsServing [] s v = v
  run-IsServing (serves unlocked ∷ events) s v =
      run-IsServing events (serve_http_once tcp unlocked s) (serve_http_once-IsServing unlocked s v)
  run-IsServing (polls unlocked ∷ events) s v =
      run-IsServing events (poll unlocked s) (poll-IsServing unlocked s v)

  -- Whatever smoltcp answers, however often the network is polled and served after the listener is set up: each response is sent at most once between two calls of `listen`, and its socket is shut right after it.
  pub run-is_fair :
      (port : ℕ) (events : List Event)
      → is_fair false (run tcp events (setup_http_listener tcp port after_init)).calls ≡ true
  run-is_fair port events =
      let start : IsServing (setup_http_listener tcp port after_init) =
        unfold setup_http_listener in
        unfold after_init in
        unfold is_fair in unfold responded in record { fair = refl; known = refl } in
      (run-IsServing events (setup_http_listener tcp port after_init) start).fair

  drain_last :
      (fuel h : ℕ) (s : Statics)
      → tcp.can_recv (push s.calls (received h)) h ≡ false
      → drain tcp (suc fuel) h s ≡ drain tcp 1 h s
  unfolding drain
  drain_last fuel h s e = elim (Option-cases (tcp.recv s.calls h)) [
    | inl k ↦ ground arith
    | inr (n, k) ↦ ground arith
  ]

  -- If a third receive would find nothing, the fuel of the loop that takes the request is enough: more of it changes nothing.
  pub drain_enough :
      (fuel h : ℕ) (s : Statics)
      → tcp.can_recv (push (push s.calls (received h)) (received h)) h ≡ false
      → drain tcp (suc (suc fuel)) h s ≡ drain tcp (drain_rounds tcp) h s
  unfolding drain
  drain_enough fuel h s e =
      let taken = record s { calls = push s.calls (received h) } in
      let last = drain_last fuel h taken e in
      elim (Option-cases (tcp.recv s.calls h)) [
        | inl k ↦ ground arith
        | inr (n, k) ↦ ground (arith, last)
      ]
