-- ===== src/Net/Tls/LocalPorts.antt =====
-- The local ports that `https_request` of kernel/src/net/tls.rs takes.
use oci_kernel.Prelude.{ℕ, zero, suc, ◌+◌, ◌%◌, ◌^◌, ◌≡◌, refl, arith, ltb, if◌then◌else◌}
use oci_kernel.Net.Tls.{Statics, start, local_port}

-- The statics after some requests have taken their ports.
unfoldable pub after_requests : ℕ → Statics
after_requests zero = start
after_requests (suc n) = (local_port (after_requests n)).1

next_port-after : (n : ℕ) → (after_requests n).next_port ≡ (49152 + n) % 2 ^ 16
unfolding after_requests start local_port
next_port-after zero = refl
next_port-after (suc n) = omega (arith, next_port-after n)

-- The ports of the first 16384 requests count up from 49152, each port of that range once; after them the counter wraps, and the next 49152 requests all take the port 49152; then it starts again.
pub local_port-after :
    (n : ℕ)
    → (local_port (after_requests n)).0
      ≡ (if ltb (n % 2 ^ 16) 16384 then 49152 + n % 2 ^ 16 else 49152)
unfolding local_port
local_port-after n = ground (arith, next_port-after n)
