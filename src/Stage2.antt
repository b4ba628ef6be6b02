-- ===== src/Stage2.antt =====
-- crates/switchvisor/src/stage2.rs: the tables by which the guest's physical addresses are mapped
-- to themselves, except what EL2 keeps.
pub mod Tables
pub mod Walk
pub mod Identity
pub mod Usb
pub mod Hidden
pub mod Gic
mod Tests
