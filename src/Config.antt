-- ===== src/Config.antt =====
-- kernel/src/config.rs: the parser of the boot configuration. A `u16` is a number below 2 ^ 16 and a
-- `usize` one below 2 ^ 64; a product of `parse_memory` wraps, where a build with overflow checks
-- panics. Lower-casing, which Rust does over Unicode, is a parameter.
pub mod Builder
pub mod Line
pub mod Parse
pub mod Printer
pub mod Printed
pub mod Indents
pub mod Steps
pub mod LineEnds
pub mod RoundTrip
pub mod Total
pub mod Examples
