-- ===== src/Psci/Tests.antt =====
-- The theorems on launches, on one request of the boot CPU for CPU 1.
use switchvisor.Base.{ℕ, ◌≡◌, refl, arith, true, false, some, ◌==◌, if◌then◌else◌}
use switchvisor.Psci.{
  Launch, claimed, guest_entry, new, claim, store_launch, boot, publish, take_launch,
}
use switchvisor.Psci.Steps.{
  World, outside, holding, stored, booted, at, accept, claims, stores, boots, publishes, Reachable,
  initial, next,
}
use switchvisor.Psci.Safety.{is_about, request_exclusive, take_launch_lem}

abbrev kernel : Launch
kernel = record { entry = 0x8000_0000; context = 7 }

abbrev no_launch : ℕ → Launch
no_launch i = record { entry = 0; context = 0 }

abbrev world1 : World
world1 = record {
  cpus = λ i. if i == 1 then record (new 1) { state = claimed } else new i;
  place = at (λ i. outside) 0 (holding 1 kernel);
  accepted = no_launch;
}

reached1 : Reachable world1
unfolding claim guest_entry new
reached1 = next (initial no_launch) (claims 0 1 kernel refl refl)

abbrev world2 : World
world2 = record {
  cpus = store_launch world1.cpus 1 kernel;
  place = at world1.place 0 (stored 1 kernel);
  accepted = no_launch;
}

reached2 : Reachable world2
reached2 = next reached1 (stores 0 1 kernel refl)

abbrev world3 : World
world3 = record {
  cpus = (boot world2.cpus 1 0).1;
  place = at world2.place 0 (booted 1 kernel);
  accepted = no_launch;
}

reached3 : Reachable world3
unfolding store_launch boot new
reached3 = next reached2 (boots 0 1 0 kernel refl refl)

abbrev world4 : World
world4 = record {
  cpus = publish world3.cpus 1;
  place = at world3.place 0 outside;
  accepted = accept no_launch 1 kernel;
}

reached4 : Reachable world4
reached4 = next reached3 (publishes 0 1 kernel refl)

kernel_taken : (take_launch world4.cpus 1).0 ≡ some kernel
unfolding store_launch boot publish take_launch new
kernel_taken = refl

take_launch_lem_example :
    (kernel ≡ world4.accepted 1)
    × (guest_entry kernel.entry ≡ true)
    × ((world4.cpus 1).physical_started ≡ true)
take_launch_lem_example = take_launch_lem 1 reached4 kernel_taken

request_exclusive_example :
    (is_about (world1.place 2) 1 ≡ false) × ((world1.cpus 1).state ≡ claimed)
request_exclusive_example = request_exclusive 1 0 2 reached1 (omega arith) refl
