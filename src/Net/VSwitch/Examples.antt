-- ===== src/Net/VSwitch/Examples.antt =====
-- The virtual switch of kernel/src/net/vswitch.rs at two forwards.
use oci_kernel.Prelude.{◌≡◌, refl, none, some, [], ◌∷◌}
use oci_kernel.Container.Spec.{ActivePortForward}
use oci_kernel.Net.VSwitch.{new, lookup_port_forward}

abbrev web : ActivePortForward
web = record { container_id = 1; host_port = 8080; container_port = 80 }

abbrev db : ActivePortForward
db = record { container_id = 2; host_port = 9090; container_port = 90 }

second_rule : lookup_port_forward new (web ∷ db ∷ []) 9090 ≡ some (2, 90)
unfolding lookup_port_forward
second_rule = refl

no_rule : lookup_port_forward new (web ∷ db ∷ []) 22 ≡ none
unfolding lookup_port_forward
no_rule = refl
