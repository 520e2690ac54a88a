-- ===== src/Host/Getty.antt =====
-- kernel/src/host/getty.rs: the login and the shell on the serial line.
pub mod State
pub mod Path
pub mod Lines
pub mod Format
pub mod Files
pub mod System
pub mod Containers
pub mod Images
pub mod Effects
pub mod ImageSet
pub mod Examples
pub mod Session
