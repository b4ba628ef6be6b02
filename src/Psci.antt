-- ===== src/Psci.antt =====
-- crates/switchvisor/src/psci.rs: the power states of the four virtual CPUs, and their launches.
-- A status is an `i64`, as a word. Psci/Steps has the interleavings of the CPUs' requests.
pub mod Bakery
pub mod Steps
pub mod Safety
mod Tests
use switchvisor.Base.{
  ℕ, ◌+◌, ◌-◌, ◌*◌, ◌/◌, ◌%◌, ◌^◌, Bool, true, false, ◌&&◌, ◌||◌, not, ◌==◌, ltb, leb,
  if◌then◌else◌, Option, none, some, Result, ok, err,
}
use switchvisor.Memory.{ipa_limit, resident_base, resident_size}

abbrev pub cpu_count : ℕ
cpu_count = 4

abbrev pub not_supported : ℕ
not_supported = 2 ^ 64 - 1

abbrev pub invalid_params : ℕ
invalid_params = 2 ^ 64 - 2

abbrev pub already_on : ℕ
already_on = 2 ^ 64 - 4

abbrev pub on_pending : ℕ
on_pending = 2 ^ 64 - 5

-- The states 0 to 3.
pub data Power : Type 0 where
  on off pending claimed : Power

pub record Launch : Type 0 where
  pub entry : ℕ
  pub context : ℕ

pub record Cpu : Type 0 where
  pub state : Power
  pub physical_started : Bool
  pub launch : Launch

abbrev pub Machine : Type 0
Machine = ℕ → Cpu

abbrev pub is_on : Power → Bool
is_on on = true
is_on off = false
is_on pending = false
is_on claimed = false

unfoldable pub new : Machine
new i = record {
  state = if i == 0 then on else off;
  physical_started = i == 0;
  launch = record { entry = 0; context = 0 };
}

abbrev pub update : Machine → ℕ → Cpu → Machine
update m target cpu i = if i == target then cpu else m i

-- The bit of a CPU that is on.
abbrev pub flag : Machine → ℕ → ℕ
flag m i = if is_on (m i).state then 2 ^ i else 0

unfoldable pub online_mask : Machine → ℕ
online_mask m = flag m 0 + flag m 1 + flag m 2 + flag m 3

abbrev pub code : Power → ℕ
code on = 0
code off = 1
code pending = 2
code claimed = 3

abbrev pub observed : Power → ℕ
observed on = code on
observed off = code off
observed pending = code pending
observed claimed = code pending

unfoldable pub affinity : Machine → ℕ → ℕ
affinity m target = if ltb target cpu_count then observed (m target).state else invalid_params

abbrev pub ram_base : ℕ
ram_base = 0x8000_0000

unfoldable pub guest_entry : ℕ → Bool
guest_entry entry =
    leb ram_base entry
    && entry % 4 == 0
    && ltb entry ipa_limit
    && not (leb resident_base entry && ltb entry (resident_base + resident_size))

abbrev pub claim_cpu : Power → Result ℕ Power
claim_cpu off = ok claimed
claim_cpu on = err already_on
claim_cpu pending = err on_pending
claim_cpu claimed = err on_pending

-- The part of `request` up to the release of the lock.
unfoldable pub claim : Machine → ℕ → Launch → Result ℕ Machine
claim m target launch =
    if not (ltb target cpu_count) || not (guest_entry launch.entry)
    then err invalid_params
    else elim (claim_cpu (m target).state) [
      | ok state ↦ ok (update m target (record (m target) { state = state }))
      | err status ↦ err status
    ]

unfoldable pub store_launch : Machine → ℕ → Launch → Machine
store_launch m target launch = update m target (record (m target) { launch = launch })

-- `boot_physical` has returned `status`; it is called for a CPU that has not started.
unfoldable pub boot : Machine → ℕ → ℕ → Result ℕ Unit × Machine
boot m target status =
    if (m target).physical_started
    then (ok tt, m)
    else if not (status == 0)
    then (err status, update m target (record (m target) { state = off }))
    else (ok tt, update m target (record (m target) { physical_started = true }))

unfoldable pub publish : Machine → ℕ → Machine
publish m target = update m target (record (m target) { state = pending })

-- The whole of `request`, when no other CPU comes between its parts.
unfoldable pub request : Machine → ℕ → Launch → ℕ → ℕ × Machine
request m target launch status = elim (claim m target launch) [
  | err e ↦ (e, m)
  | ok m' ↦
      let (booted, m'') = boot (store_launch m' target launch) target status in
      elim booted [ err e ↦ (e, m'') | ok u ↦ (0, publish m'' target) ]
]

abbrev pub is_pending : Power → Bool
is_pending on = false
is_pending off = false
is_pending pending = true
is_pending claimed = false

unfoldable pub take_launch : Machine → ℕ → Option Launch × Machine
take_launch m caller =
    if is_pending (m caller).state
    then (some (m caller).launch, update m caller (record (m caller) { state = on }))
    else (none, m)

unfoldable pub power_off : Machine → ℕ → Machine
power_off m caller = update m caller (record (m caller) { state = off })

unfoldable pub cpu_id : ℕ → Option ℕ
cpu_id target = if ltb target cpu_count then some target else none

unfoldable pub suspend : ℕ → Bool
suspend function =
    function == 0x8400_0001
    || function == 0xc400_0001
    || function == 0x8400_000e
    || function == 0xc400_000e

-- `CPU_ON32`, `CPU_ON64`, `CPU_OFF`, `AFFINITY32` and `AFFINITY64`
abbrev pub is_emulated : ℕ → Bool
is_emulated function =
    function == 0x8400_0003
    || function == 0xc400_0003
    || function == 0x8400_0002
    || function == 0x8400_0004
    || function == 0xc400_0004

-- `none` leaves the query to the firmware.
unfoldable pub feature : ℕ → Option ℕ
feature function =
    if suspend function then some not_supported else if is_emulated function then some 0 else none
