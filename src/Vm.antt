-- ===== src/Vm.antt =====
-- crates/switchvisor/src/vm: what the hypervisor does with the guest's exits.
pub mod Network
pub mod Interrupt
