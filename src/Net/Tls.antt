-- ===== src/Net/Tls.antt =====
-- kernel/src/net/tls.rs: one request over TCP. The sockets of smoltcp are a parameter: what they
-- answer may depend on every call before, and a call is an entry of a list.
pub mod Rng
pub mod Filled
pub mod Sockets
pub mod Released
pub mod Given
pub mod Delivered
pub mod LocalPorts
pub mod Ends
pub mod Examples
use oci_kernel.Prelude.{
  ℕ, zero, suc, ◌+◌, ◌%◌, ◌^◌, Bool, true, false, ltb, ◌==◌, if◌then◌else◌, Option, none, some,
  List, [], ◌∷◌, ◌++◌, push, Result, ok, err,
}
use oci_kernel.Prelude.Text.{Text, text, text_eq}

pub data Call : Type 0 where
  polled : ℕ → Call
  added removed : ℕ → Call
  connected : ℕ → List ℕ → ℕ → ℕ → Call
  sent : ℕ → List ℕ → Call
  taken : ℕ → Call

-- What smoltcp answers after the calls so far: the handle of a socket that is added, whether
-- `connect` and `send_slice` succeed, and the bytes, at most 1024, that `recv_slice` gives, `none`
-- where it fails.
pub record Tcp : Type 0 where
  pub add : List Call → ℕ
  pub connects : List Call → ℕ → Bool
  pub sends : List Call → ℕ → Bool
  pub is_active : List Call → ℕ → Bool
  pub may_recv : List Call → ℕ → Bool
  pub recv : List Call → ℕ → Option (List ℕ)

-- Whether `NETWORK` is set, `NEXT_PORT`, `POLL_TICKS` and the calls so far.
pub record Statics : Type 0 where
  pub has_network : Bool
  pub next_port : ℕ
  pub poll_ticks : ℕ
  pub calls : List Call

unfoldable pub start : Statics
start = record { has_network = true; next_port = 49152; poll_ticks = 0; calls = [] }

pub data TlsConnectError : Type 0 where
  no_network tcp_failed tls_error : TlsConnectError

-- The four bytes of an address.
unfoldable pub resolve_host : Text → Option (List ℕ)
resolve_host host =
    if text_eq host (text "registry-1.docker.io")
    then some (54 ∷ 236 ∷ 246 ∷ 36 ∷ [])
    else if text_eq host (text "auth.docker.io")
    then some (54 ∷ 236 ∷ 246 ∷ 36 ∷ [])
    else none

unfoldable pub call : Call → Statics → Statics
call c s = record s { calls = push s.calls c }

-- `stack.poll(next_instant())`
unfoldable pub poll_next : Statics → Statics
unfolding call
poll_next s = record (call (polled s.poll_ticks) s) { poll_ticks = (s.poll_ticks + 1) % 2 ^ 64 }

-- `NEXT_PORT.fetch_add(1)`, with the port that is taken.
unfoldable pub local_port : Statics → ℕ × Statics
local_port s = (
  if ltb s.next_port 49152 then 49152 else s.next_port,
  record s { next_port = (s.next_port + 1) % 2 ^ 16 },
)

-- A result, or no end within the fuel.
pub data Exchange : Type 0 where
  ended : Result (List ℕ) TlsConnectError → Statics → Exchange
  unfinished : Statics → Exchange

module _ (tcp : Tcp) where
  -- The polls until the connection is active.
  unfoldable pub await_active : ℕ → ℕ → Statics → Statics
  unfolding poll_next
  await_active zero h s = s
  await_active (suc left) h s =
      let asked = poll_next s in
      let rest = await_active left h asked in if tcp.is_active asked.calls h then asked else rest

  -- The loop that reads the response, on fuel, and the removal of the socket after it.
  unfoldable pub read_response : ℕ → ℕ → List ℕ → Statics → Exchange
  unfolding poll_next call
  read_response zero h response s = unfinished s
  read_response (suc fuel) h response s =
      let asked = poll_next s in
      let read = call (taken h) asked in
      elim (tcp.recv asked.calls h) [
        | none ↦ ended (ok response) (call (removed h) read)
        | some chunk ↦
            let rest = read_response fuel h (response ++ chunk) read in
            if tcp.may_recv read.calls h
            then rest
            else ended (ok (response ++ chunk)) (call (removed h) read)
      ]

  unfoldable pub send_request : ℕ → ℕ → List ℕ → Statics → Exchange
  send_request fuel h request s =
      let asked = call (sent h request) s in
      if tcp.sends s.calls h
      then read_response fuel h [] asked
      else ended (err tcp_failed) (call (removed h) asked)

  abbrev pub connect_polls : ℕ
  connect_polls = 100000

  unfoldable pub await_and_send : ℕ → ℕ → List ℕ → Statics → Exchange
  await_and_send fuel h request s =
      let waited = await_active connect_polls h s in
      if tcp.is_active waited.calls h
      then send_request fuel h request waited
      else ended (err tcp_failed) (call (removed h) waited)

  unfoldable pub exchange_with : ℕ → List ℕ → ℕ → List ℕ → Statics → Exchange
  exchange_with fuel ip port request s =
      let h = tcp.add s.calls in
      let (own_port, ready) = local_port (call (added h) s) in
      let asked = call (connected h ip port own_port) ready in
      if tcp.connects ready.calls h
      then await_and_send fuel h request asked
      else ended (err tcp_failed) (call (removed h) asked)

  unfoldable pub https_request : ℕ → Text → ℕ → List ℕ → Statics → Exchange
  unfolding resolve_host
  https_request fuel host port request s =
      let resolved : Exchange = elim (resolve_host host) [
        | none ↦ ended (err tcp_failed) s
        | some ip ↦ exchange_with fuel ip port request s
      ] in
      if s.has_network then resolved else ended (err no_network) s
