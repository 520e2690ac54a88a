-- ===== src/Container/Spec.antt =====
-- kernel/src/container/spec.rs: what a container is made from. A `u16` is a number below 2 ^ 16, a
-- `usize` one below 2 ^ 64.
use oci_kernel.Prelude.{ℕ, ◌*◌, List, []}
use oci_kernel.Prelude.Text.{Text}

pub record PortMapping : Type 0 where
  pub host : ℕ
  pub container : ℕ

pub record ActivePortForward : Type 0 where
  pub container_id : ℕ
  pub host_port : ℕ
  pub container_port : ℕ

pub data AccessMode : Type 0 where
  read_only read_write : AccessMode

pub record VolumeMount : Type 0 where
  pub source : Text
  pub target : Text
  pub access : AccessMode

pub data RestartPolicy : Type 0 where
  never on_failure always : RestartPolicy

pub data NetworkMode : Type 0 where
  bridge host_network no_network : NetworkMode

pub record ResourceLimits : Type 0 where
  pub memory_bytes : ℕ
  pub pids_max : ℕ
  pub cpu_shares : ℕ

unfoldable pub default : ResourceLimits
default = record { memory_bytes = 256 * 1024 * 1024; pids_max = 100; cpu_shares = 1024 }

pub record ContainerSpec : Type 0 where
  pub image : Text
  pub command : List Text
  pub env : List (Text × Text)
  pub ports : List PortMapping
  pub volumes : List VolumeMount
  pub network : NetworkMode
  pub resources : ResourceLimits
  pub restart : RestartPolicy

unfoldable pub new : Text → List Text → ContainerSpec
unfolding default
new image command = record {
  image = image;
  command = command;
  env = [];
  ports = [];
  volumes = [];
  network = bridge;
  resources = default;
  restart = never;
}
