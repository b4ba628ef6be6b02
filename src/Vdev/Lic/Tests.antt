-- ===== src/Vdev/Lic/Tests.antt =====
-- The controller with the sources of the USB device, 44, and of the network, 45.
use switchvisor.Base.{Option, ◌≡◌, refl, some, bit, true, false, ok, ℕ, ◌+◌, ◌^◌, ◌≢◌, err, arith}
use switchvisor.Drivers.{one_word, IsPlain}
use switchvisor.Vdev.Uart.Device.{access_size}
use switchvisor.Vdev.Lic.{
  Lic, new, select, set_owned_source, set_network_source, filter, write_round, write_register, base,
  cpu_ier_set, cpu_iep_class, write, initialize, initialize_one, write_word,
}
use switchvisor.Vdev.Lic.Protect.{left_bit, bit-filter}
use switchvisor.Vdev.Lic.Enable.{enable_seen, plain_enable, enable_seen-filter_network}

abbrev device : Lic
device = record {
  usb = record { owned_source = some 44; guest_enabled = false };
  network = record { owned_source = some 45; guest_enabled = false };
}

selected : set_network_source (set_owned_source new (some 44)) (some 45) ≡ device
unfolding new select set_owned_source set_network_source
selected = refl

word_IsPlain : IsPlain one_word (base + (0x100 + cpu_iep_class))
word_IsPlain s = refl

unaligned : write one_word device 0x126 4 0 7 ≡ err access_size
unfolding write
unaligned = refl

-- The USB source stays routed to the IRQ line, and enabled.
routed : initialize one_word device 0xffff_ffff ≡ 2 ^ 13
unfolding initialize initialize_one
routed = refl

enabled_write :
    write one_word device (0x100 + cpu_ier_set) 4 0xffff_ffff 0
    ≡ ok (
      record {
        usb = record { owned_source = some 44; guest_enabled = true };
        network = record { owned_source = some 45; guest_enabled = true };
      },
      0xffff_cfff,
    )
unfolding write write_word filter write_round write_register
enabled_write = refl

bit-filter_example :
    ((filter one_word device (0x100 + cpu_iep_class) 0xffff 0x1000).1 ≡ 0x1000)
    × (bit (filter one_word device (0x100 + cpu_iep_class) 0xffff 0x1000).0.1 13
        ≡ left_bit
            (some 45)
            (0x100 + cpu_iep_class)
            13
            (bit 0x1000 13)
            (left_bit (some 44) (0x100 + cpu_iep_class) 13 (bit 0x1000 13) (bit 0xffff 13)))
bit-filter_example =
    bit-filter one_word (0x100 + cpu_iep_class) word_IsPlain device 0xffff 13 0x1000 (omega arith)

apart : ◌≢◌ {A = Option ℕ} (some 44) (some 45)
apart h = ground arith

enable_seen-filter_network_example :
    enable_seen (filter one_word device (0x100 + cpu_iep_class) 0xffff 0).0.0 45 7
    ≡ plain_enable 45 (0x100 + cpu_iep_class) 0xffff (enable_seen device 45 8)
enable_seen-filter_network_example =
    enable_seen-filter_network one_word (0x100 + cpu_iep_class) word_IsPlain device 45 0xffff 7 8 0
      refl apart
