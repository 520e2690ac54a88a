-- ===== src/Isolation.antt =====
-- kernel/src/isolation: resource limits, namespaces and the system call filter of a container.
pub mod Cgroup
pub mod Namespace
pub mod Seccomp
pub mod Examples
