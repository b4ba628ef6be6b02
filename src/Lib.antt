-- ===== src/Lib.antt =====
-- switchvisor is a hypervisor for one guest on a Tegra210 board. A bootstrap checks the board and
-- its payload, EL2 builds the guest's physical map, and from then on it runs on the guest's traps:
-- accesses of trapped registers, calls for CPU power states, and the traffic of its USB console.
--
-- The files follow the crate crates/switchvisor/src; the paths below are in it.
-- - Base: lists, words, bits and bytes on the native numbers; results, and checked additions.
-- - Memory: memory.rs, the ranges of addresses, and the constants of the memory map.
-- - Payload: payload.rs. Payload/Crc is `Crc32`; Payload/Config is `Payload` with `validate`,
--   `entry`, `source`, `encode` and `decode`; Payload/Valid is what an accepted payload satisfies,
--   Payload/Checksum
--   and Payload/Roundtrip how it is encoded and decoded.
-- - Loader: loader.rs, the upload of a bundle of images over USB. Loader/Header, Loader/Descriptor
--   and Loader/Response are its messages, Loader/Machine the record `Loader`, Loader/Arms one
--   function per arm of `Loader::handle`, Loader/Handle the handler. The trait `Storage` is a
--   parameter: a state with `write` and `zero_fill`. Loader/Invariant and Loader/Preserve are the
--   invariant, Loader/Confine the ranges written, Loader/Upload and Loader/Accept whole uploads,
--   Loader/Replies the replies.
-- - Stage2: stage2.rs. Stage2/Tables is `build`, Stage2/Usb is `protect_usb`, Stage2/Gic
--   `protect_gic`; a table is a function of the index. Stage2/Walk is the translation that the
--   hardware makes of the tables, and Stage2/Identity, Stage2/Hidden and Stage2/Gic/Reach compare
--   it with the identity.
-- - El2Mmu: el2_mmu.rs, EL2's own tables; El2Mmu/Identity has the walk and the attributes.
-- - Mc: mc.rs. The registers are a function, as in the code.
-- - Mmio: mmio.rs, the decoding of aborts, and `emulate` of vdev/mod.rs over the interface
--   `VirtualDevice`, a record that the devices fill.
-- - Drivers: the trait `Mmio` of drivers/mod.rs, a record over the state of the hardware, and in
--   Drivers/Gic the driver of drivers/interrupt/gicv2.rs. The file itself has its state, the table
--   of waiting interrupts and the choice of the next one; Gic/Controller has the operations on the
--   hardware, from the list registers to `take_interrupt`, and Gic/Setup what is written before the
--   guest runs. Gic/Encode, Pop, Valid, Refill, Deliver, Sgi and Take are about these.
-- - Vdev: vdev/gicv2.rs, the distributor that the guest sees, in Vdev/Gic, with Masks on the bits
--   that EL2 keeps, Protect on what is written, View on what the guest reads; vdev/lic.rs in
--   Vdev/Lic, with Protect and Enable; vdev/usb_ownership.rs in Vdev/Ownership; vdev/uart.rs in
--   Vdev/Uart, whose Queue has the rings, Device the registers, Fifo the rings as queues, Port and
--   Guest the whole device. Vdev/Virtio is vdev/virtio_net.rs: Memory is the trait `GuestMemory`, a
--   record over a state; Chain and Queue are the buffers of a packet and the queue they are taken
--   from, Device is `Net` with `transmit` and `receive`, Registers its registers. Visits, Confine
--   and Transfer follow the walk along a chain, the accesses to guest memory and a whole frame;
--   Negotiation, Lifetime and Failure are about the status register over any sequence of events.
-- - Fdt: fdt.rs, the reader of a device tree; the test of UTF-8 is a parameter. Fdt/Bounds is about
--   the walk, Fdt/Parse about a tree that is accepted.
-- - Vm: vm/interrupt.rs in Vm/Interrupt, the interrupt controllers behind the decoding of aborts,
--   with Vm/Interrupt/Published on what the other CPUs read of them; vm/network.rs in Vm/Network,
--   the guest memory that the network device shares, over the copies of the processor, which are a
--   parameter; Vm/Network/Isolation puts the device on it.
-- - Network: net.rs. Network/Frames is the ring of frames, Network/Checksum and Network/Management
--   the replies of the endpoint, Network/Bridge the switch, Network/Service the loop that moves
--   frames between the device and the Ethernet side, which is a parameter. Frames/Push and
--   Frames/Refine, Management/Arp and Replies, Bridge/Forward and Service/Sound say what these do.
-- - Control: control.rs. Control/Line says what a line means, Control/Stream runs the parser.
-- - Framebuffer: framebuffer.rs, the layout and the console, over a sink of pixels that is a
--   parameter; Framebuffer/Font has the glyphs, Layout the offsets, Cursor what text does.
-- - Psci: psci.rs. Psci/Bakery is the lock, one step for each load or store of a CPU, with
--   Bakery/Exclusion and Bakery/Progress over all interleavings. Psci/Steps interleaves the parts
--   of the CPUs' requests, one step for what runs under the lock and one for each later part;
--   Psci/Safety is the invariant.
--
-- Numbers are natural numbers; where the code wraps, saturates or checks an addition, that is
-- written out. Five loops run on fuel. The walk along a chain of descriptors has 129 rounds: each
-- marks one of at most 128 slots that was not marked before. The loop that folds a checksum has
-- two, since a sum of 32 bits folds to at most 17 bits, and that to 16. The loop of `refill` has
-- 65: each clears a bit of a word of 64. The walk of a device tree and the loop over its
-- reservations have one more than the bytes they read: each round moves on. Every other loop is
-- over a list or counts down a number.
--
-- Not modelled: the weaker orderings of memory accesses in psci.rs, where the steps are in program
-- order; that the address map of vm/network.rs could change while the guest runs; the memory nodes
-- of the device tree, the image header, the USB class functions, the host tools. Register I/O,
-- assembly and the code that only starts or connects these parts has no model.
pub mod Base
pub mod Memory
pub mod Payload
pub mod Loader
pub mod Drivers
pub mod Vdev
pub mod Stage2
pub mod El2Mmu
pub mod Mc
pub mod Mmio
pub mod Control
pub mod Psci
pub mod Vm
pub mod Network
pub mod Framebuffer
pub mod Fdt
