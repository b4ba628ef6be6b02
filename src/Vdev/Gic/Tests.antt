-- ===== src/Vdev/Gic/Tests.antt =====
-- A distributor where EL2 owns the interrupts 76 and 77.
use switchvisor.Base.{
  inr, ℕ, ◌≡◌, ◌≢◌, refl, false, ◌&&◌, ◌||◌, not, ◌==◌, if◌then◌else◌, bit, ok, err, some, arith,
}
use switchvisor.Drivers.{one_word}
use switchvisor.Vdev.Uart.Device.{access_size}
use switchvisor.Vdev.Gic.{
  Distributor, new, select, set_owned_interrupt, set_network_interrupt, gicd_ctlr, gicd_isenabler0,
  is_write_one, stored, change_all, decode_access, write, write_word, change, change_enable,
  change_priority, next_control, store, owned_action_mask, first_mask, owned_word_mask, word_mask,
  owned_byte_mask, byte_mask, config_mask, owned_config_mask, maintenance_mask, protected_mask,
  merged,
}
use switchvisor.Vdev.Gic.Masks.{is_kept}
use switchvisor.Vdev.Gic.Protect.{asked_bit, bit-stored}
use switchvisor.Vdev.Gic.View.{enable_seen, plain_enable, enable_seen-change_all}

abbrev device : Distributor
device = record {
  guest_control = 1;
  usb = record { interrupt = 76; enabled = false; priority = 0xa0 };
  network = record { interrupt = 77; enabled = false; priority = 0xa0 };
}

selected :
    (set_network_interrupt (set_owned_interrupt new (some 76)) (some 77)).network ≡ device.network
unfolding set_network_interrupt set_owned_interrupt select
selected = refl

crosses_word : decode_access 0x102 4 ≡ err access_size
unfolding decode_access
crosses_word = refl

upper_byte : decode_access 0x403 1 ≡ ok ((0x400, 24), 0xff00_0000)
unfolding decode_access
upper_byte = refl

-- The guest turns the distributor off: the physical one stays on.
turned_off : write one_word 0 device 0 4 0 1 ≡ ok (record device { guest_control = 0 }, 1)
unfolding write decode_access write_word change_all change change_enable change_priority
    next_control store stored word_mask is_write_one protected_mask maintenance_mask
    owned_action_mask first_mask owned_word_mask owned_byte_mask byte_mask owned_config_mask
    config_mask merged
turned_off = refl

bit-stored_example : bit (stored device 0x108 0xffff_ffff 0xffff_ffff 0) 12 ≡ (
    if 0x108 == gicd_ctlr
    then 12 == 0 || bit device.guest_control 12
    else if is_write_one 0x108
    then not (is_kept device 0x108 12) && bit 0xffff_ffff 12
    else if is_kept device 0x108 12
    then bit 0 12
    else asked_bit 0xffff_ffff 0xffff_ffff 0 12)
bit-stored_example = bit-stored device 0x108 0xffff_ffff 0xffff_ffff 0 12 (omega arith)

-- Without a USB interrupt.
abbrev network_only : Distributor
network_only = record device { usb = record { interrupt = 1023; enabled = false; priority = 0xa0 } }

apart : ◌≢◌ {A = ℕ} 1023 77
apart h = omega arith

enable_seen-change_all_example :
    enable_seen (change_all network_only 0x108 0xffff_ffff 0x2000) 77 gicd_isenabler0 0
    ≡ plain_enable 77 0x108 0x2000 (enable_seen network_only 77 gicd_isenabler0 0)
enable_seen-change_all_example =
    enable_seen-change_all network_only 77 gicd_isenabler0 0x108 0xffff_ffff 0x2000 0 0
      (omega arith) (inr refl) apart refl
