-- ===== src/Net/Web.antt =====
-- kernel/src/net/mod.rs and `setup_tcp_listener` of kernel/src/net/stack.rs: the responder that serves
-- one page. The TCP of smoltcp is a parameter: what it answers may depend on every call before, and
-- a call is an entry of a list.
pub mod Fair
pub mod Responses
pub mod Stuck
pub mod Examples
use oci_kernel.Prelude.{
  ℕ, zero, suc, ◌+◌, ◌%◌, ◌^◌, Bool, true, false, ◌==◌, if◌then◌else◌, Option, none, some, List, [],
  ◌∷◌, ◌++◌, push,
}
use oci_kernel.Prelude.Text.{Text, text}

-- The states of a TCP socket.
pub data TcpState : Type 0 where
  closed listen syn_sent syn_received established fin_wait1 fin_wait2 close_wait closing last_ack
        time_wait :
      TcpState

-- The calls of the code: a poll of the stack at a time, and those of the socket with a handle.
pub data Call : Type 0 where
  polled : ℕ → Call
  listened : ℕ → ℕ → Call
  received : ℕ → Call
  sent : ℕ → List ℕ → Call
  shut : ℕ → Call

-- What smoltcp answers after the calls so far. `add` is the handle of a socket that is added, and
-- `recv` the number of bytes that a receive takes, `none` where it fails.
pub record Tcp : Type 0 where
  pub add : List Call → ℕ
  pub state : List Call → ℕ → TcpState
  pub can_recv : List Call → ℕ → Bool
  pub can_send : List Call → ℕ → Bool
  pub recv : List Call → ℕ → Option ℕ

-- The statics: whether `NETWORK` is set, `HTTP_HANDLE`, `HTTP_PORT`, `HTTP_RESPONDED` and `NET_TICKS`.
pub record Statics : Type 0 where
  pub has_network : Bool
  pub http_handle : Option ℕ
  pub http_port : ℕ
  pub http_responded : Bool
  pub net_ticks : ℕ
  pub calls : List Call

-- The statics once `init` has set up the stack.
unfoldable pub after_init : Statics
after_init = record {
  has_network = true;
  http_handle = none;
  http_port = 0;
  http_responded = false;
  net_ticks = 0;
  calls = [];
}

abbrev pub http_response : Text
http_response =
    text "HTTP/1.0 200 OK\r\nContent-Type: text/html\r\nConnection: close\r\n\r\n"
    ++ (text "<!DOCTYPE html><html><head><title>Welcome to nginx! -- OCI Kernel</title></head>"
        ++ (text "<body><h1>Welcome to nginx!</h1>"
            ++ (text
                  "<p><strong>OCI Kernel 0.1.0</strong> -- the kernel IS the container runtime.</p>"
                ++ (text "<p>Container: <code>nginx:latest</code> (id 1) -- Port 80</p><hr/>"
                    ++ (text "<p><em>Milestone 2 will proxy traffic to the real nginx process.<br/>"
                        ++ text
                            "This response is served directly by the kernel TCP stack.</em></p></body></html>")))))

-- `poll` of the stack, with the next tick.
unfoldable pub poll_stack : Statics → Statics
poll_stack s = record s {
  net_ticks = (s.net_ticks + 1) % 2 ^ 64;
  calls = push s.calls (polled s.net_ticks);
}

-- `poll`, where `unlocked` tells whether the lock of the stack is free.
unfoldable pub poll : Bool → Statics → Statics
unfolding poll_stack
poll unlocked s = if s.has_network then (if unlocked then poll_stack s else s) else s

-- The socket is closed: it listens again.
unfoldable pub rearm : ℕ → Statics → Statics
rearm h s = record s { http_responded = false; calls = push s.calls (listened h s.http_port) }

-- What comes to pass between the keystrokes, and whether the lock was free.
pub data Event : Type 0 where
  serves polls : Bool → Event

module _ (tcp : Tcp) where
  unfoldable pub setup_tcp_listener : ℕ → Statics → ℕ × Statics
  setup_tcp_listener port s =
      let h = tcp.add s.calls in (h, record s { calls = push s.calls (listened h port) })

  -- The handle is set once.
  unfoldable pub setup_http_listener : ℕ → Statics → Statics
  unfolding setup_tcp_listener
  setup_http_listener port s =
      let stored = record s { http_port = port } in
      let (h, added) = setup_tcp_listener port stored in
      let handle : Option ℕ = elim s.http_handle [ none ↦ some h | some old ↦ some old ] in
      if s.has_network then record added { http_handle = handle } else stored

  -- The loop that takes the request, on fuel.
  unfoldable pub drain : ℕ → ℕ → Statics → Statics
  drain zero h s = s
  drain (suc fuel) h s =
      let taken = record s { calls = push s.calls (received h) } in
      let rest = drain fuel h taken in
      elim (tcp.recv s.calls h) [
        | none ↦ taken
        | some n ↦ if n == 0 then taken else if tcp.can_recv taken.calls h then rest else taken
      ]

  -- A receive takes what lies in one piece, and the buffer, a ring, has two pieces at most.
  abbrev pub drain_rounds : ℕ
  drain_rounds = 2

  unfoldable pub answer : ℕ → Statics → Statics
  unfolding drain
  answer h s =
      let drained = drain drain_rounds h s in
      let answered = record drained {
        http_responded = true;
        calls = push (push drained.calls (sent h http_response)) (shut h);
      } in
      if tcp.can_recv s.calls h
      then (if tcp.can_send drained.calls h then answered else drained)
      else s

  unfoldable pub react : TcpState → ℕ → Statics → Statics
  unfolding rearm answer
  react closed h s = rearm h s
  react time_wait h s = rearm h s
  react established h s = if s.http_responded then s else answer h s
  react _ h s = s

  unfoldable pub serve_locked : ℕ → Statics → Statics
  unfolding poll_stack react
  serve_locked h s = let served = poll_stack s in react (tcp.state served.calls h) h served

  unfoldable pub serve_http_once : Bool → Statics → Statics
  unfolding serve_locked
  serve_http_once unlocked s =
      let served : Statics = elim s.http_handle [
        | none ↦ s
        | some h ↦ if unlocked then serve_locked h s else s
      ] in
      if s.has_network then served else s

  unfoldable pub run : List Event → Statics → Statics
  unfolding serve_http_once poll
  run [] s = s
  run (serves unlocked ∷ events) s = run events (serve_http_once unlocked s)
  run (polls unlocked ∷ events) s = run events (poll unlocked s)
