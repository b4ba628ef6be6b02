-- ===== src/Mmio.antt =====
-- crates/switchvisor/src/mmio.rs, and `emulate` of vdev/mod.rs: an abort of the guest is decoded to
-- an access of a device's registers. Syndromes and addresses are words of 64 bits.
pub mod Decode
pub mod Access
pub mod Emulate
mod Tests
