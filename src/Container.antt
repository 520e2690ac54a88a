-- ===== src/Container.antt =====
-- kernel/src/container.
pub mod Spec
pub mod Runtime
pub mod Store
pub mod Examples
