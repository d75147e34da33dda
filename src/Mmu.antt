-- ===== src/Mmu.antt =====
-- arch/arm64/mach-rpi/mmu.c from `create_identity_mapping` on: the ranges that the kernel maps and
-- the registers that it sets, with the attributes of pgtable_prot.h and the fields of pgtable_hwdef.h.
-- Barriers and the invalidation of caches are not modelled.
pub mod Attributes
pub mod Start
use arm64os.Common.{
  ℕ, ◌+◌, ◌-◌, ◌*◌, ◌/◌, ◌^◌, Option, none, some, ltb, ◌==◌, if◌then◌else◌, bit_and, bit_or,
}
use arm64os.Common.Bits.{and_not}
use arm64os.Common.Int.{ℤ, pos, negsuc}
use arm64os.PageAlloc.{total_memory, u64, page_align}
use arm64os.PageTable.{PhysMemory, clear_page, create_pgd_mapping}

abbrev pub mt_device_ngnrne : ℕ
mt_device_ngnrne = 0

abbrev pub mt_device_ngnre : ℕ
mt_device_ngnre = 1

abbrev pub mt_device_gre : ℕ
mt_device_gre = 2

abbrev pub mt_normal_nc : ℕ
mt_normal_nc = 3

abbrev pub mt_normal : ℕ
mt_normal = 4

abbrev pub mt_normal_wt : ℕ
mt_normal_wt = 5

-- `PTE_TYPE_PAGE | PTE_AF | PTE_SHARED`
abbrev pub prot_default : ℕ
prot_default = bit_or (bit_or 3 (2 ^ 10)) (3 * 2 ^ 8)

abbrev pub pte_write : ℕ
pte_write = 2 ^ 51

abbrev pub pte_pxn : ℕ
pte_pxn = 2 ^ 53

abbrev pub pte_uxn : ℕ
pte_uxn = 2 ^ 54

abbrev pub pte_dirty : ℕ
pte_dirty = 2 ^ 55

abbrev pub pte_rdonly : ℕ
pte_rdonly = 2 ^ 7

abbrev pub pte_attrindx : ℕ → ℕ
pte_attrindx t = t * 2 ^ 2

-- `PROT_NORMAL`, and `PROT_DEVICE_nGnRnE` with another index.
abbrev pub prot_of : ℕ → ℕ
prot_of attr =
    bit_or (bit_or (bit_or (bit_or (bit_or prot_default pte_pxn) pte_uxn) pte_dirty) pte_write)
      (pte_attrindx attr)

abbrev pub prot_device_ngnrne : ℕ
prot_device_ngnrne = prot_of mt_device_ngnrne

abbrev pub page_kernel : ℕ
page_kernel = prot_of mt_normal

abbrev pub page_kernel_rox : ℕ
page_kernel_rox = bit_or (and_not page_kernel (bit_or pte_write pte_pxn)) pte_rdonly

abbrev pub pbase : ℕ
pbase = 0xFE000000

abbrev pub device_size : ℕ
device_size = 0x2000000

-- The addresses that the linker sets.
pub record MmuImage : Type 0 where
  pub idmap_pgd_dir : ℕ
  pub text_boot_start : ℕ
  pub text_end : ℕ

unfoldable pub create_identity_mapping : MmuImage → PhysMemory → Option PhysMemory
create_identity_mapping img s =
    let start = img.text_boot_start in
    let rest = page_align img.text_end in
    elim (create_pgd_mapping img.idmap_pgd_dir start start (u64 (img.text_end + 2 ^ 64 - start))
      page_kernel_rox 0 s) [
        | none ↦ none
        | some s1 ↦
            create_pgd_mapping img.idmap_pgd_dir rest rest (u64 (total_memory + 2 ^ 64 - rest))
              page_kernel 0 s1
      ]

unfoldable pub create_mmio_mapping : MmuImage → PhysMemory → Option PhysMemory
create_mmio_mapping img s =
    create_pgd_mapping img.idmap_pgd_dir pbase pbase device_size prot_device_ngnrne 0 s

pub record SystemRegisters : Type 0 where
  pub cpacr_el1 : ℕ
  pub mdscr_el1 : ℕ
  pub mair_el1 : ℕ
  pub tcr_el1 : ℕ
  pub ttbr0_el1 : ℕ
  pub sctlr_el1 : ℕ

-- `MAIR(attr, mt)`
abbrev pub mair_field : (attr mt : ℕ) → ℕ
mair_field attr mt = attr * 2 ^ (mt * 8)

-- `TCR_TxSZ(VA_BITS) | TCR_TG_FLAGS`
abbrev pub tcr_fields : ℕ
tcr_fields = bit_or (bit_or (64 - 48) ((64 - 48) * 2 ^ 16)) (bit_or 0 (2 * 2 ^ 30))

-- `mmfr0` is what the register ID_AA64MMFR0_EL1 reads.
unfoldable pub cpu_init : (mmfr0 : ℕ) → SystemRegisters → SystemRegisters
cpu_init mmfr0 regs =
    let parang = bit_and mmfr0 0xf in
    let limited = if ltb 5 parang then 5 else parang in
    record regs {
      cpacr_el1 = 3 * 2 ^ 20;
      mdscr_el1 = 2 ^ 12;
      mair_el1 =
          bit_or
            (bit_or
              (bit_or
                (bit_or
                  (bit_or (mair_field 0x00 mt_device_ngnrne) (mair_field 0x04 mt_device_ngnre))
                  (mair_field 0x0c mt_device_gre))
                (mair_field 0x44 mt_normal_nc))
              (mair_field 0xff mt_normal))
            (mair_field 0xbb mt_normal_wt);
      tcr_el1 = bit_or tcr_fields (limited * 2 ^ 32);
    }

unfoldable pub enable_mmu : MmuImage → (mmfr0 : ℕ) → SystemRegisters → ℤ × SystemRegisters
enable_mmu img mmfr0 regs =
    if bit_and (mmfr0 / 2 ^ 28) 0xf == 0
    then (pos 0, record regs { ttbr0_el1 = img.idmap_pgd_dir; sctlr_el1 = 1 })
    else (negsuc 0, regs)

-- `paging_init`, which does not look at what `enable_mmu` returns.
unfoldable pub paging_init :
    MmuImage → (mmfr0 : ℕ) → PhysMemory × SystemRegisters → Option (PhysMemory × SystemRegisters)
unfolding create_identity_mapping create_mmio_mapping cpu_init enable_mmu
paging_init img mmfr0 (s, regs) =
    elim (create_identity_mapping img (record s { words = clear_page img.idmap_pgd_dir s.words })) [
      | none ↦ none
      | some s1 ↦ elim (create_mmio_mapping img s1) [
        | none ↦ none
        | some s2 ↦ some (s2, (enable_mmu img mmfr0 (cpu_init mmfr0 regs)).1)
      ]
    ]
