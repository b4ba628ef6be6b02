-- ===== src/Payload.antt =====
-- crates/switchvisor/src/payload.rs: the configuration of a packaged EL1 payload, and its CRC.
pub mod Crc
pub mod Config
pub mod Valid
pub mod Checksum
pub mod Roundtrip
mod Tests
