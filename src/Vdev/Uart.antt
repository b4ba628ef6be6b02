-- ===== src/Vdev/Uart.antt =====
-- crates/switchvisor/src/vdev/uart.rs: the serial port that the guest sees, with its two queues.
-- `Device` is the record `Uart`; a queue is Vdev/Uart/Queue's ring with the capacity as an argument.
pub mod Queue
pub mod Device
pub mod Fifo
pub mod Port
pub mod Guest
mod Tests
