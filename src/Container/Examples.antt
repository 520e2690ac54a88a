-- ===== src/Container/Examples.antt =====
-- The theorems on kernel/src/container at small inputs.
use oci_kernel.Prelude.{◌≤◌, [], ◌∷◌}
use oci_kernel.Prelude.Text.{text}
use oci_kernel.Container.Spec
use oci_kernel.Container.Spec.{ContainerSpec}
use oci_kernel.Container.Runtime.{create}
use oci_kernel.Container.Runtime.Lifecycle.{call_start, call_stop, starts, stops, starts-create}

abbrev spec : ContainerSpec
spec = Spec.new (text "web") []

starts-create_example :
    (starts (call_start ∷ call_start ∷ call_stop ∷ []) (create spec 1).0 ≤ 1)
    × (stops (call_start ∷ call_start ∷ call_stop ∷ []) (create spec 1).0
        ≤ starts (call_start ∷ call_start ∷ call_stop ∷ []) (create spec 1).0)
starts-create_example = starts-create spec 1 (call_start ∷ call_start ∷ call_stop ∷ [])
