-- ===== src/Net/Web/Examples.antt =====
-- The responder of kernel/src/net/mod.rs with a client that asks and a client that leaves.
use oci_kernel.Prelude.{ℕ, ◌≡◌, ◌∙◌, refl, true, false, some, List, [], ◌∷◌, push}
use oci_kernel.Net.Web.{
  TcpState, closed, listen, established, close_wait, Call, polled, listened, received, sent, shut,
  Tcp, after_init, http_response, setup_http_listener, serve_http_once, Event, serves, polls, run,
}
use oci_kernel.Net.Web.Fair.{is_fair}
use oci_kernel.Net.Web.Responses.{run-is_fair}
use oci_kernel.Net.Web.Stuck.{IsStuck, run-IsStuck}

next_phase : TcpState → TcpState
next_phase listen = established
next_phase state = state

-- A client connects at the poll after the call of `listen`, and is gone once it has its answer.
phase : TcpState → List Call → TcpState
phase state [] = state
phase state (polled t ∷ cs) = phase (next_phase state) cs
phase state (listened h port ∷ cs) = phase listen cs
phase state (received h ∷ cs) = phase state cs
phase state (sent h bytes ∷ cs) = phase state cs
phase state (shut h ∷ cs) = phase closed cs

abbrev asking : Tcp
asking = record {
  add = λ calls. 0;
  state = λ calls h. phase closed calls;
  can_recv = λ calls h. true;
  can_send = λ calls h. true;
  recv = λ calls h. some 0;
}

abbrev rounds : List Event
rounds = serves true ∷ serves false ∷ polls true ∷ serves true ∷ serves true ∷ []

-- Two clients are answered.
two_answers :
    (run asking rounds (setup_http_listener asking 80 after_init)).calls
    ≡ listened 0 80
      ∷ polled 0
      ∷ received 0
      ∷ sent 0 http_response
      ∷ shut 0
      ∷ polled 1
      ∷ polled 2
      ∷ listened 0 80
      ∷ polled 3
      ∷ received 0
      ∷ sent 0 http_response
      ∷ shut 0
      ∷ []
unfolding run setup_http_listener after_init phase next_phase serve_http_once
two_answers = refl

run-is_fair_example :
    is_fair false (run asking rounds (setup_http_listener asking 80 after_init)).calls ≡ true
run-is_fair_example = run-is_fair asking 80 rounds

-- The state while the responder has not shut the socket.
stay : List Call → TcpState
stay [] = close_wait
stay (polled t ∷ cs) = stay cs
stay (listened h port ∷ cs) = stay cs
stay (received h ∷ cs) = stay cs
stay (sent h bytes ∷ cs) = stay cs
stay (shut h ∷ cs) = closed

stay-push : (calls : List Call) (t : ℕ) → stay (push calls (polled t)) ≡ stay calls
unfolding stay
stay-push [] t = refl
stay-push (polled u ∷ cs) t = stay-push cs t
stay-push (listened h port ∷ cs) t = stay-push cs t
stay-push (received h ∷ cs) t = stay-push cs t
stay-push (sent h bytes ∷ cs) t = stay-push cs t
stay-push (shut h ∷ cs) t = refl

-- The client sends nothing and closes; the responder does not.
abbrev leaving : Tcp
leaving = record {
  add = λ calls. 0;
  state = λ calls h. stay calls;
  can_recv = λ calls h. false;
  can_send = λ calls h. true;
  recv = λ calls h. some 0;
}

run-IsStuck_example :
    IsStuck leaving 0
      (setup_http_listener leaving 80 after_init)
      (run leaving rounds (setup_http_listener leaving 80 after_init))
unfolding setup_http_listener after_init stay
run-IsStuck_example =
    run-IsStuck leaving 0 (λ calls t e. stay-push calls t ∙ e) rounds
      (setup_http_listener leaving 80 after_init) refl refl
