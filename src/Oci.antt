-- ===== src/Oci.antt =====
-- kernel/src/oci: images and their layers.
pub mod Manifest
pub mod ImageStore
pub mod Layer
pub mod Sha256
pub mod Registry
pub mod Examples
