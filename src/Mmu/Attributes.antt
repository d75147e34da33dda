-- ===== src/Mmu/Attributes.antt =====
-- What the attributes of a translation and the system registers mean, by the architecture: an independent
-- description, by which the constants of pgtable_prot.h and mm.h are judged.
use arm64os.Common.{
  ℕ, ◌+◌, ◌-◌, ◌*◌, ◌/◌, ◌%◌, ◌^◌, ◌≡◌, ◌≢◌, ◌⊎◌, refl, arith, Bool-cases, inl, inr, ◌==◌, ltb,
  if◌then◌else◌, bit_and,
}
use arm64os.Common.Bits.{or_split, or_zero, and_low_mask}
use arm64os.PageTable.Walk.{Translation}
use arm64os.PageTable.Entry.{translation}
use arm64os.Mmu.{
  MmuImage, SystemRegisters, page_kernel, page_kernel_rox, prot_device_ngnrne, cpu_init, enable_mmu,
  tcr_fields,
}

-- The byte of MAIR_EL1 that an entry selects with its bits 2 to 4.
abbrev pub memory_type : SystemRegisters → Translation → ℕ
memory_type regs e = regs.mair_el1 / 2 ^ (8 * (e.low_attributes % 8)) % 256

abbrev pub write_back : ℕ
write_back = 0xff

abbrev pub device_ngnrne : ℕ
device_ngnrne = 0

-- A page of the kernel alone, which it has of the memory type `type`, can write where `writable` is 1
-- and run where `executable` is 1: the bits 6 and 7 of the entry are AP, 8 and 9 the shareability, 10 the
-- access flag, 51 the dirty bit modifier, with which a read only page becomes writable, and 53 and 54
-- forbid the kernel and the user to run it.
pub record IsKernelPage (regs : SystemRegisters) (type writable executable : ℕ) (e : Translation)
    : Type 0 where
  pub type_of : memory_type regs e ≡ type
  pub no_user : e.low_attributes / 2 ^ 4 % 2 ≡ 0
  pub read_only : e.low_attributes / 2 ^ 5 % 2 ≡ 1 - writable
  pub no_dirty : (1 - writable) * (e.high_attributes / 2 ^ 3 % 2) ≡ 0
  pub shared : e.low_attributes / 2 ^ 6 % 4 ≡ 3
  pub accessed : e.low_attributes / 2 ^ 8 % 2 ≡ 1
  pub no_run : e.high_attributes / 2 ^ 5 % 2 ≡ 1 - executable
  pub no_user_run : e.high_attributes / 2 ^ 6 % 2 ≡ 1

-- The unit is on, with tables at `root` for addresses of 48 bits in pages of 4 KB.
pub record IsOn (root : ℕ) (regs : SystemRegisters) : Type 0 where
  pub enabled : regs.sctlr_el1 % 2 ≡ 1
  pub table : regs.ttbr0_el1 ≡ root
  pub size : 64 - regs.tcr_el1 % 2 ^ 6 ≡ 48
  pub granule : regs.tcr_el1 / 2 ^ 14 % 4 ≡ 0

abbrev pub registers_after : MmuImage → (mmfr0 : ℕ) → SystemRegisters → SystemRegisters
registers_after img mmfr0 regs = (enable_mmu img mmfr0 (cpu_init mmfr0 regs)).1

module _ (img : MmuImage) (mmfr0 : ℕ) (regs : SystemRegisters) where
  mair_after : (registers_after img mmfr0 regs).mair_el1 ≡ 0xbbff440c0400
  unfolding cpu_init enable_mmu
  mair_after = elim (Bool-cases (bit_and (mmfr0 / 2 ^ 28) 0xf == 0)) [
    | inl known ↦ rw (registers_after, known)
    | inr unknown ↦ rw (registers_after, unknown)
  ]

  pub text-IsKernelPage :
      (va : ℕ)
      → IsKernelPage
          (registers_after img mmfr0 regs)
          write_back
          0
          1
          (translation page_kernel_rox va)
  text-IsKernelPage va = record {
    type_of = rw mair_after;
    no_user = refl;
    read_only = refl;
    no_dirty = refl;
    shared = refl;
    accessed = refl;
    no_run = refl;
    no_user_run = refl;
  }

  pub memory-IsKernelPage :
      (va : ℕ)
      → IsKernelPage (registers_after img mmfr0 regs) write_back 1 0 (translation page_kernel va)
  memory-IsKernelPage va = record {
    type_of = rw mair_after;
    no_user = refl;
    read_only = refl;
    no_dirty = refl;
    shared = refl;
    accessed = refl;
    no_run = refl;
    no_user_run = refl;
  }

  pub devices-IsKernelPage :
      (va : ℕ)
      → IsKernelPage
          (registers_after img mmfr0 regs)
          device_ngnrne
          1
          0
          (translation prot_device_ngnrne va)
  devices-IsKernelPage va = record {
    type_of = rw mair_after;
    no_user = refl;
    read_only = refl;
    no_dirty = refl;
    shared = refl;
    accessed = refl;
    no_run = refl;
    no_user_run = refl;
  }

  tcr_after : (registers_after img mmfr0 regs).tcr_el1 % 2 ^ 32 ≡ tcr_fields
  unfolding cpu_init enable_mmu
  tcr_after =
      let limited = if ltb 5 (bit_and mmfr0 0xf) then 5 else bit_and mmfr0 0xf in
      let split = or_split 32 0 tcr_fields limited 0 (omega arith) (omega arith) in
      let low = or_zero tcr_fields in
      let high : limited * 2 ^ 32 + 0 ≡ limited * 2 ^ 32 = omega arith in
      let both = rw high at split in
      elim (Bool-cases (bit_and (mmfr0 / 2 ^ 28) 0xf == 0)) [
        | inl known ↦ rw (registers_after, known) (omega (arith, both, low))
        | inr unknown ↦ rw (registers_after, unknown) (omega (arith, both, low))
      ]

  -- The processor has no pages of 4 KB, and the unit is as it was.
  abbrev pub IsRefused : Type 0
  IsRefused =
      (mmfr0 / 2 ^ 28 % 16 ≢ 0) × ((registers_after img mmfr0 regs).sctlr_el1 ≡ regs.sctlr_el1)

  pub registers-IsOn : IsOn img.idmap_pgd_dir (registers_after img mmfr0 regs) ⊎ IsRefused
  unfolding cpu_init enable_mmu
  registers-IsOn = elim (Bool-cases (bit_and (mmfr0 / 2 ^ 28) 0xf == 0)) [
    | inl known ↦ inl record {
      enabled = rw (registers_after, known);
      table = rw (registers_after, known);
      size = omega (arith, tcr_after);
      granule = omega (arith, tcr_after);
    }
    | inr unknown ↦ inr (
      (λ supported. ground (arith, and_low_mask 4 (mmfr0 / 2 ^ 28), supported, unknown)),
      (rw (registers_after, unknown)),
    )
  ]
