-- ===== src/Net/Tls/Examples.antt =====
-- Requests of kernel/src/net/tls.rs to a peer that answers and closes.
use oci_kernel.Prelude.{
  ℕ, suc, ◌+◌, ◌≤◌, ◌≡◌, refl, arith, true, leb, if◌then◌else◌, none, some, List, [], ◌∷◌, ltb, ◌%◌,
  ◌^◌, ok,
}
use oci_kernel.Prelude.Text.{Text, text, text_eq}
use oci_kernel.Net.Tls.{
  Call, polled, added, removed, connected, sent, taken, Tcp, start, https_request, await_active,
  read_response, send_request, await_and_send, exchange_with, resolve_host, call, poll_next,
  local_port, ended,
}
use oci_kernel.Net.Tls.Sockets.{IsReleased, in_set}
use oci_kernel.Net.Tls.Released.{https_request-IsReleased}
use oci_kernel.Net.Tls.Given.{IsDelivered}
use oci_kernel.Net.Tls.Delivered.{https_request-IsDelivered}
use oci_kernel.Net.Tls.Ends.{polls_in, has_ended, https_request-has_ended}
use oci_kernel.Net.Tls.LocalPorts.{after_requests, local_port-after}
use oci_kernel.Net.Tls.Filled.{IsFilled, fill_bytes-IsFilled}
use oci_kernel.Net.Tls.Rng.{fill_bytes}

-- Up to the third poll a receive gives two bytes.
abbrev peer : Tcp
peer = record {
  add = λ calls. 7;
  connects = λ calls h. true;
  sends = λ calls h. true;
  is_active = λ calls h. true;
  may_recv = λ calls h. true;
  recv = λ calls h. if leb 4 (polls_in calls) then none else some (1 ∷ 2 ∷ []);
}

abbrev host : Text
host = text "auth.docker.io"

-- One poll until the connection is active, and three that read.
two_chunks :
    https_request peer 5 host 443 (9 ∷ []) start
    ≡ ended (ok (1 ∷ 2 ∷ 1 ∷ 2 ∷ [])) (record {
      has_network = true;
      next_port = 49153;
      poll_ticks = 4;
      calls =
          added 7
          ∷ connected 7 (54 ∷ 236 ∷ 246 ∷ 36 ∷ []) 443 49152
          ∷ polled 0
          ∷ sent 7 (9 ∷ [])
          ∷ polled 1
          ∷ taken 7
          ∷ polled 2
          ∷ taken 7
          ∷ polled 3
          ∷ taken 7
          ∷ removed 7
          ∷ [];
    })
unfolding https_request exchange_with await_and_send send_request read_response await_active
    resolve_host text_eq call poll_next local_port start polls_in
two_chunks = refl

https_request-IsReleased_example : IsReleased (https_request peer 5 host 443 (9 ∷ []) start)
unfolding in_set start
https_request-IsReleased_example = https_request-IsReleased peer 5 host 443 (9 ∷ []) start refl

https_request-IsDelivered_example :
    IsDelivered peer start (https_request peer 5 host 443 (9 ∷ []) start)
https_request-IsDelivered_example = https_request-IsDelivered peer start 5 host 443 (9 ∷ [])

silent_from_four : (calls : List Call) (h : ℕ) → 4 ≤ polls_in calls → peer.recv calls h ≡ none
silent_from_four calls h l = ground arith

https_request-has_ended_example :
    has_ended (https_request peer (suc 4) host 443 (9 ∷ []) start) ≡ true
https_request-has_ended_example =
    https_request-has_ended peer 4 silent_from_four host 443 (9 ∷ []) start

local_port-after_example :
    (local_port (after_requests 20000)).0
    ≡ (if ltb (20000 % 2 ^ 16) 16384 then 49152 + 20000 % 2 ^ 16 else 49152)
local_port-after_example = local_port-after 20000

abbrev words : ℕ → ℕ
words i = 0x1000 + i

fill_bytes-IsFilled_example :
    IsFilled words 11 0 (fill_bytes words 11 0).0 (fill_bytes words 11 0).1
fill_bytes-IsFilled_example = fill_bytes-IsFilled words 11 0
