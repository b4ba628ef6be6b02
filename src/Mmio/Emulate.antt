-- ===== src/Mmio/Emulate.antt =====
-- Data between the registers and a device: `store_data`, `load_data`, and `emulate` over any device
-- that keeps the promise of the trait `VirtualDevice`.
use switchvisor.Base.{
  ℕ, ◌+◌, ◌-◌, ◌*◌, ◌%◌, ◌^◌, ◌<◌, ◌≡◌, Bool, true, false, ◌&&◌, ◌||◌, not, leb, ◌==◌,
  if◌then◌else◌, List, bit, get_or, set, length, get_or-set_self, none, some, Result, ok, err,
  arith, ◌⊎◌,
}
use switchvisor.Mmio.Decode.{Access, decode_region}

-- `registers.get(i).copied().unwrap_or(0)`, and the low `8 * size` bits of it.
unfoldable pub store_data : Access → List ℕ → ℕ
store_data a registers = get_or registers a.register 0 % 2 ^ (8 * a.size)

unfoldable pub store_value : Access → List ℕ → ℕ
store_value a registers = store_data a registers % 2 ^ 32

-- The sign in the bit `bits - 1` copied up to bit 63.
unfoldable pub extend : ℕ → ℕ → ℕ
extend value bits = if bit value (bits - 1) then value + (2 ^ 64 - 2 ^ bits) else value

-- What `load_data` writes to the register.
unfoldable pub loaded : Access → ℕ → ℕ
loaded a value =
    let bits = 8 * a.size in
    let low = value % 2 ^ bits in
    let signed = if a.sign_extend then extend low bits else low in
    if a.wide then signed else signed % 2 ^ 32

-- A write to the register 31 changes nothing.
unfoldable pub load_data : Access → ℕ → List ℕ → List ℕ
load_data a value registers = set registers a.register (loaded a value)

unfoldable pub load_value : Access → ℕ → List ℕ → List ℕ
load_value a value registers = load_data a (value % 2 ^ 32) registers

-- `VirtualDevice`: the region of its registers, and accesses that are refused or change the state.
pub record VirtualDevice (S E : Type 0) : Type 0 where
  pub base : ℕ
  pub size : ℕ
  pub read : S → ℕ → ℕ → Result E ℕ × S
  pub write : S → ℕ → ℕ → ℕ → Result E S

module _ {S E : Type 0} (device : VirtualDevice S E) where
  unfoldable pub emulate_access : Access → S → List ℕ → Bool × S × List ℕ
  emulate_access a s registers =
      if a.write
      then elim (device.write s a.offset a.size (store_data a registers)) [
        | ok s' ↦ (true, s', registers)
        | err e ↦ (false, s, registers)
      ]
      else (let (result, s') = device.read s a.offset a.size in
          elim result [
            | ok value ↦ (true, s', load_data a value registers)
            | err e ↦ (false, s', registers)
          ])

  unfoldable pub emulate : ℕ → ℕ → ℕ → S → List ℕ → Bool × S × List ℕ
  emulate esr far hpfar s registers = elim (decode_region esr far hpfar device.base device.size) [
    | none ↦ (false, s, registers)
    | some a ↦ emulate_access a s registers
  ]

-- A number of `bits` bits, as a signed one where the flag is set: whether it is negative, and how
-- large.
abbrev pub reading : Bool → ℕ → ℕ → Bool × ℕ
reading signed bits x =
    if signed && leb (2 ^ (bits - 1)) x then (true, 2 ^ bits - x) else (false, x)

abbrev pub width_of : Access → ℕ
width_of a = if a.wide then 64 else 32

-- What a load puts in a register, a store of the same size takes out again: the low bytes of the
-- value. The register, of 32 bits or 64, holds the number that these bytes are: signed for a load
-- that extends the sign, unsigned for others.
pub store_data-load_data :
    (a : Access) (value : ℕ) (registers : List ℕ)
    → a.register < length registers
    → (a.size ≡ 1) ⊎ ((a.size ≡ 2) ⊎ ((a.size ≡ 4) ⊎ (a.size ≡ 8)))
    → (not (a.size == 8) || a.wide) ≡ true
    → (store_data a (load_data a value registers) ≡ value % 2 ^ (8 * a.size))
      × (get_or (load_data a value registers) a.register 0 < 2 ^ width_of a)
      × (reading a.sign_extend (width_of a) (get_or (load_data a value registers) a.register 0)
          ≡ reading a.sign_extend (8 * a.size) (value % 2 ^ (8 * a.size)))
unfolding store_data load_data loaded extend
store_data-load_data a value registers h sizes wide =
    rw (get_or-set_self registers a.register (loaded a value) 0 h) (ground arith)
