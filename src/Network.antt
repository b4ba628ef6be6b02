-- ===== src/Network.antt =====
-- crates/switchvisor/src/net.rs: the switch between the USB host, the guest and a management
-- endpoint. A frame is the list of its bytes.
pub mod Frames
pub mod Checksum
pub mod Management
pub mod Bridge
pub mod Service
mod Tests
