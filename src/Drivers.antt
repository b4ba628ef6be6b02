-- ===== src/Drivers.antt =====
-- crates/switchvisor/src/drivers/mod.rs: the trait `Mmio`, registers of 32 bits in a state `S` of the
-- hardware, where a read may change the state.
pub mod Gic
use switchvisor.Base.{ℕ, ◌^◌, ◌<◌, ◌≡◌}

pub record Mmio (S : Type 0) : Type 0 where
  pub read32 : S → ℕ → ℕ × S
  pub write32 : S → ℕ → ℕ → S
  pub barrier : S → S

-- A register that can be read without an effect.
abbrev pub IsPlain : {S : Type 0} → Mmio S → ℕ → Type 0
IsPlain {S} mmio address = (s : S) → (mmio.read32 s address).1 ≡ s

-- Hardware of one word, which every access reads or writes.
abbrev pub one_word : Mmio ℕ
one_word = record {
  read32 = λ s address. (s, s);
  write32 = λ s address value. value;
  barrier = λ s. s;
}
