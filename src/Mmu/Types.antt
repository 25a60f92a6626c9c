-- ===== src/Mmu/Types.antt =====
-- The plain data of the MMU: MMUEmulator.hpp, lines 23 to 95 and 236 to 241.
use acheron_arm.Base.{ℕ, Bool, false, not, ◌&&◌, ◌==◌, if◌then◌else◌, bit_and, not64, sub64}

pub data MemoryType : Type 0 where
  device_ngnrne device_ngnre device_ngre device_gre : MemoryType
  normal normal_nc normal_wb normal_wt : MemoryType

-- `AccessPermission` has two names for each of three values, so it is a number here.
abbrev pub el0_none : ℕ
el0_none = 0

abbrev pub el0_ro : ℕ
el0_ro = 1

abbrev pub el0_rw : ℕ
el0_rw = 2

abbrev pub el1_none : ℕ
el1_none = 0

abbrev pub el1_ro : ℕ
el1_ro = 1

abbrev pub el1_rw : ℕ
el1_rw = 2

pub record MemoryRegion : Type 0 where
  pub base_address : ℕ
  pub size : ℕ
  pub type : MemoryType
  pub ap : ℕ
  pub uxn : Bool
  pub pxn : Bool
  pub contiguous : Bool
  pub shareable : Bool

abbrev pub blank_region : MemoryRegion
blank_region = record {
  base_address = 0;
  size = 0;
  type = normal;
  ap = el1_rw;
  uxn = false;
  pxn = false;
  contiguous = false;
  shareable = false;
}

pub record TlbEntry : Type 0 where
  pub virtual_address : ℕ
  pub physical_address : ℕ
  pub size : ℕ
  pub type : MemoryType
  pub ap : ℕ
  pub uxn : Bool
  pub pxn : Bool
  pub asid : ℕ
  pub valid : Bool

abbrev pub blank_entry : TlbEntry
blank_entry = record {
  virtual_address = 0;
  physical_address = 0;
  size = 0;
  type = normal;
  ap = el1_rw;
  uxn = false;
  pxn = false;
  asid = 0;
  valid = false;
}

-- `TLBEntry::matches`
unfoldable pub matches : TlbEntry → ℕ → ℕ → Bool
matches e va asid_match =
    if not e.valid
    then false
    else if not (e.asid == asid_match) && not (e.asid == 0xFFFF)
    then false
    else let mask = not64 (sub64 e.size 1) in bit_and e.virtual_address mask == bit_and va mask

-- `MMUEmulator::Stats`
pub record Stats : Type 0 where
  pub tlb_hits : ℕ
  pub tlb_misses : ℕ
  pub page_walks : ℕ
  pub translation_faults : ℕ
