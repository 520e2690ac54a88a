-- ===== src/Config/Builder.antt =====
-- `ConfigError`, `KernelConfig` and `ContainerBuilder` of kernel/src/config.rs.
use oci_kernel.Prelude.{ℕ, Option, none, some, List, [], Result, ok, err}
use oci_kernel.Prelude.Text.{Text, text}
use oci_kernel.Container.Spec
use oci_kernel.Container.Spec.{
  PortMapping, RestartPolicy, never, ResourceLimits, default, ContainerSpec,
}

pub data ConfigError : Type 0 where
  missing_field : Text → ConfigError
  bad_value : Text → ConfigError

pub record KernelConfig : Type 0 where
  pub containers : List ContainerSpec

pub record ContainerBuilder : Type 0 where
  pub image : Option Text
  pub ports : List PortMapping
  pub restart : RestartPolicy
  pub memory_bytes : Option ℕ
  pub pids_max : Option ℕ

unfoldable pub new_builder : ContainerBuilder
new_builder = record {
  image = none;
  ports = [];
  restart = never;
  memory_bytes = none;
  pids_max = none;
}

unfoldable pub unwrap_or : ℕ → Option ℕ → ℕ
unwrap_or d none = d
unwrap_or d (some n) = n

-- The specification of a builder that has this image.
unfoldable pub built : ContainerBuilder → Text → ContainerSpec
unfolding unwrap_or default Spec.new
built b image = record (Spec.new image []) {
  ports = b.ports;
  restart = b.restart;
  resources = record {
    memory_bytes = unwrap_or default.memory_bytes b.memory_bytes;
    pids_max = unwrap_or default.pids_max b.pids_max;
    cpu_shares = default.cpu_shares;
  };
}

unfoldable pub build : ContainerBuilder → Result ContainerSpec ConfigError
unfolding built
build b = elim b.image [
  | none ↦ err (missing_field (text "image"))
  | some image ↦ ok (built b image)
]
