-- ===== src/Vdev/Virtio.antt =====
-- crates/switchvisor/src/vdev/virtio_net.rs: the network device that the guest sees. Guest memory
-- is the interface of Vdev/Virtio/Memory; `Net` is modelled by Device, its registers by Registers.
pub mod Memory
pub mod Chain
pub mod Queue
pub mod Device
pub mod Registers
pub mod Visits
pub mod Confine
pub mod Transfer
pub mod Negotiation
pub mod Lifetime
pub mod Failure
