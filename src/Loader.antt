-- ===== src/Loader.antt =====
-- crates/switchvisor/src/loader.rs: the binary protocol and the state machine by which a host
-- uploads a bundle of images into guest RAM before the guest starts.
pub mod Types
pub mod Ranges
pub mod Header
pub mod Descriptor
pub mod Roundtrip
pub mod Response
pub mod Machine
pub mod Arms
pub mod Handle
pub mod Invariant
pub mod Preserve
pub mod Confine
pub mod Replies
pub mod Upload
pub mod Accept
mod Tests
