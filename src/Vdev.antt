-- ===== src/Vdev.antt =====
-- crates/switchvisor/src/vdev: the devices that the guest sees in place of physical ones.
pub mod Gic
pub mod Lic
pub mod Ownership
pub mod Uart
pub mod Virtio
