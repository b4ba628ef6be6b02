-- ===== src/Stage2/Tables.antt =====
-- `Table`, `build` and `protect_usb` of stage2.rs. A table is a function from the index of an
-- entry to its descriptor; the tables have 512 entries, and no other index is used.
use switchvisor.Base.{
  ℕ, ◌+◌, ◌*◌, ◌/◌, ◌%◌, ◌^◌, Bool, true, false, ◌&&◌, not, Result, ok, err, ltb, leb, ◌==◌,
  if◌then◌else◌, List, [], ◌∷◌, any, bit_and, bit_or, checked_add, none, some,
}
use switchvisor.Memory.{ipa_limit, page_size, block_size, resident_base, resident_size}

abbrev pub gib : ℕ
gib = 2 ^ 30

abbrev pub entries : ℕ
entries = 512

abbrev pub ram_base : ℕ
ram_base = 0x8000_0000

abbrev pub vmid : ℕ
vmid = 1

-- `mc::BASE`, `uart::BASE` and `virtio_net::BASE`, the pages whose accesses are trapped.
abbrev pub mc_base : ℕ
mc_base = 0x7001_9000

abbrev pub uart_base : ℕ
uart_base = 0x700f_f000

abbrev pub virtio_base : ℕ
virtio_base = 0x700f_e000

abbrev pub split_index : ℕ
split_index = resident_base / gib

abbrev pub mc_index : ℕ
mc_index = mc_base / gib

abbrev pub address_mask : ℕ
address_mask = 0x0000_000f_ffff_f000

-- `(3 << 6) | (3 << 8) | (1 << 10)`
abbrev pub access : ℕ
access = 3 * 2 ^ 6 + 3 * 2 ^ 8 + 2 ^ 10

abbrev pub normal : ℕ
normal = 0xf * 2 ^ 2 + access + 1

abbrev pub device : ℕ
device = access + 1 + 2 ^ 54

abbrev pub Table : Type 0
Table = ℕ → ℕ

abbrev pub zeroed : Table
zeroed i = 0

-- `table.0[index] = value`
abbrev pub put : Table → ℕ → ℕ → Table
put t index value i = if i == index then value else t i

pub data MapError : Type 0 where
  table_placement gic_layout : MapError

unfoldable pub resident_table : ℕ → Bool
resident_table address =
    address % page_size == 0 && leb resident_base address && elim (checked_add address page_size) [
      | none ↦ false
      | some end ↦ leb end (resident_base + resident_size)
    ]

-- The loop over the tables' addresses: each in resident RAM, and none given before.
unfoldable pub placed : List ℕ → List ℕ → Bool
placed before [] = true
placed before (address ∷ rest) =
    resident_table address && not (any (λ a. a == address) before) && placed (address ∷ before) rest

-- `(RESIDENT_BASE..RESIDENT_BASE + RESIDENT_SIZE).contains(&address)`
abbrev pub is_resident : ℕ → Bool
is_resident address = leb resident_base address && ltb address (resident_base + resident_size)

-- The four tables.
pub record Map : Type 0 where
  pub root : Table
  pub split : Table
  pub mmio : Table
  pub pages : Table

pub record Addresses : Type 0 where
  pub root_at : ℕ
  pub split_at : ℕ
  pub mmio_at : ℕ
  pub pages_at : ℕ

abbrev pub root_block : ℕ → ℕ
root_block index =
    let address = index * gib in bit_or address (if ltb address ram_base then device else normal)

unfoldable pub root_table : Addresses → Table
root_table a =
    put
      (put (λ i. if ltb i (ipa_limit / gib) then root_block i else 0) mc_index (bit_or a.mmio_at 3))
      split_index (bit_or (bit_and a.split_at address_mask) 3)

unfoldable pub split_table : Table
split_table i =
    let address = split_index * gib + i * block_size in
    if is_resident address then 0 else bit_or address normal

unfoldable pub mmio_table : Addresses → Table
mmio_table a =
    put (λ i. bit_or (mc_index * gib + i * block_size) device) (mc_base % gib / block_size)
      (bit_or a.pages_at 3)

-- `mc::BASE & !(BLOCK_SIZE - 1)`
abbrev pub page_base : ℕ
page_base = mc_base / block_size * block_size

unfoldable pub pages_table : Table
pages_table i =
    let address = page_base + i * page_size in
    if not (address == mc_base) && not (address == uart_base) && not (address == virtio_base)
    then bit_or (bit_or address device) 2
    else 0

unfoldable pub build : Addresses → Result MapError (Map × ℕ)
build a =
    if placed [] (a.root_at ∷ a.split_at ∷ a.mmio_at ∷ a.pages_at ∷ [])
    then ok (
      record { root = root_table a; split = split_table; mmio = mmio_table a; pages = pages_table },
      bit_or (vmid * 2 ^ 48) a.root_at,
    )
    else err table_placement
