-- ===== src/Mc/Bounds.antt =====
-- What an accepted memory layout means for the resident region, and for the memory above 4 GiB.
use switchvisor.Base.{
  ℕ, ◌+◌, ◌*◌, ◌^◌, ◌≤◌, ◌≡◌, refl, ◌∙◌, min, Bool, true, ◌||◌, ltb, leb, ◌==◌, List, [], ◌∷◌, all,
  Option, none, some, ok, arith, Option-cases, ◌++◌, take, ◌≢◌, inl, inr, ◌↔◌,
}
use switchvisor.Memory.{ipa_limit, resident_base, resident_size}
use switchvisor.Mc.{
  Registers, Carveout, carveouts, base_of, ram, four_gib, lowest, megabytes, emem_cfg, gsc5_bom,
  gsc5_hi, gsc5_size, validate, read_override,
}

-- The carveout is unused, or its base is outside of the range, or not below `limit`.
abbrev pub is_clear : Registers → ℕ → ℕ → ℕ → Carveout → Bool
is_clear read first last limit c =
    read c.size_of == 0
    || ltb (base_of read c) first
    || ltb last (base_of read c)
    || leb limit (base_of read c)

lowest-clear :
    (read : Registers) (cs : List Carveout) (top limit : ℕ)
    → limit ≤ lowest read cs top
    → (limit ≤ top) × (all (is_clear read ram four_gib limit) cs ≡ true)
unfolding lowest
lowest-clear read [] top limit h = ground arith
lowest-clear read (c ∷ cs) top limit h = let rest = lowest-clear read cs _ limit h in ground arith

lowest-clear_conv :
    (read : Registers) (cs : List Carveout) (top limit : ℕ)
    → limit ≤ top
    → all (is_clear read ram four_gib limit) cs ≡ true
    → limit ≤ lowest read cs top
unfolding lowest
lowest-clear_conv read [] top limit h k = h
lowest-clear_conv read (c ∷ cs) top limit h k =
    lowest-clear_conv read cs _ limit (ground arith) (ground arith)

-- The layout that `validate` is for, with `mb` megabytes of RAM.
abbrev pub Fits : Registers → ℕ → Type 0
Fits read mb =
    (resident_base + resident_size ≤ ram + mb * 2 ^ 20)
    × (ram + mb * 2 ^ 20 ≤ ipa_limit)
    × (all (is_clear read ram four_gib (resident_base + resident_size)) carveouts ≡ true)
    × (read gsc5_size ≡ 0)

abbrev pub FitsSize : Registers → Option ℕ → Type 0
FitsSize read none = ⊥
FitsSize read (some mb) = Fits read mb

-- The layout is accepted exactly when the size of RAM is known and RAM holds the resident region
-- whole, ends within the guest's addresses, has no carveout in use that starts below the region's
-- end and from the start of RAM to 4 GiB, and the carveout that EL2 announces is not in use.
pub validate_iff :
    (read : Registers) → (validate read ≡ ok tt) ↔ FitsSize read (megabytes (read emem_cfg))
unfolding validate
validate_iff read = elim (Option-cases (megabytes (read emem_cfg))) [
  | inl h ↦ ground arith
  | inr (mb, h) ↦
      let there =
        lowest-clear read carveouts (ram + min (mb * 2 ^ 20) ram) (resident_base + resident_size) in
      let back =
        lowest-clear_conv read carveouts (ram + min (mb * 2 ^ 20) ram)
          (resident_base + resident_size) in
      ground arith
]

-- What the guest reads: an announced register has its value, any other that of the hardware.
abbrev pub announced : Registers → Registers
announced read offset = elim (read_override offset) [ none ↦ read offset | some v ↦ v ]

-- The last carveout decides, if all others start above it.
lowest_last :
    (read : Registers) (cs : List Carveout) (c : Carveout) (top limit : ℕ)
    → limit ≤ top
    → all (is_clear read ram four_gib limit) cs ≡ true
    → read c.size_of ≢ 0
    → ram ≤ base_of read c
    → base_of read c ≤ four_gib
    → base_of read c ≤ limit
    → lowest read (cs ++ c ∷ []) top ≡ base_of read c
unfolding lowest
lowest_last read [] c top limit h k used lo hi low = ground arith
lowest_last read (d ∷ cs) c top limit h k used lo hi low =
    lowest_last read cs c _ limit (ground arith) (ground arith) used lo hi low

abbrev firmware : List Carveout
firmware = take 7 carveouts

all-firmware : (test : Carveout → Bool) → all test carveouts ≡ true → all test firmware ≡ true
all-firmware test h = ground arith

announced-firmware :
    (read : Registers)
    → all (is_clear (announced read) ram four_gib (resident_base + resident_size)) firmware
      ≡ all (is_clear read ram four_gib (resident_base + resident_size)) firmware
unfolding read_override
announced-firmware read = refl

announced_gsc5 :
    (read : Registers) (mb : ℕ)
    → resident_base + resident_size ≤ ram + min (mb * 2 ^ 20) ram
    → all (is_clear (announced read) ram four_gib (resident_base + resident_size)) firmware ≡ true
    → lowest (announced read) carveouts (ram + min (mb * 2 ^ 20) ram) ≡ resident_base
unfolding read_override
announced_gsc5 read mb h k =
    lowest_last (announced read) firmware
      (record { bom = gsc5_bom; high = gsc5_hi; size_of = gsc5_size }) (ram + min (mb * 2 ^ 20) ram)
      (resident_base + resident_size) h k (omega arith) (omega arith) (omega arith) (omega arith)

announced-lowest :
    (read : Registers) (mb : ℕ)
    → Fits read mb
    → lowest (announced read) carveouts (ram + min (mb * 2 ^ 20) ram) ≡ resident_base
announced-lowest read mb f = announced_gsc5 read mb (omega arith) (
    announced-firmware read
    ∙ all-firmware (is_clear read ram four_gib (resident_base + resident_size)) f.2)

-- On an accepted layout a bootloader that computes the top of low RAM from the registers as the
-- guest reads them, the way `validate` does, finds the start of the resident region.
pub lowest-announced :
    (read : Registers) (mb : ℕ)
    → megabytes (read emem_cfg) ≡ some mb
    → validate read ≡ ok tt
    → lowest (announced read) carveouts (ram + min (mb * 2 ^ 20) ram) ≡ resident_base
lowest-announced read mb size h = announced-lowest read mb (ground (arith, validate_iff read))

abbrev pub is_above : Registers → ℕ → Carveout → Bool
is_above read limit c =
    read c.size_of == 0 || ltb (base_of read c) four_gib || leb limit (base_of read c)
