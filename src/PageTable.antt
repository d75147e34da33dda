-- ===== src/PageTable.antt =====
-- The page tables of the kernel: the parts of arch/arm64/include/asm/pgtable.h, pgtable_hwdef.h and
-- pgtable_prot.h that make entries, and arch/arm64/mach-rpi/mmu.c up to `paging_init`. Memory is a
-- function from the address of an entry to its 64 bits. All tables come from `early_pgtable_alloc`,
-- which the source passes as `alloc_pgtable`.
pub mod Walk
pub mod Labels
pub mod Frame
pub mod Entry
pub mod Mapped
pub mod Write
pub mod Fresh
pub mod Fill
pub mod Run
pub mod Loops
pub mod Create
use arm64os.Common.{
  ℕ, zero, suc, ◌+◌, ◌-◌, ◌*◌, ◌/◌, ◌^◌, Option, none, some, ltb, leb, ◌==◌, ◌&&◌, if◌then◌else◌,
  update, bit_and, bit_or,
}
use arm64os.Common.Bits.{and_not}
use arm64os.PageAlloc.{PageAlloc, page_size, u64, page_align, page_align_down, get_free_page}

abbrev pub page_shift : ℕ
page_shift = 12

abbrev pub pmd_shift : ℕ
pmd_shift = 21

abbrev pub pud_shift : ℕ
pud_shift = 30

abbrev pub pgdir_shift : ℕ
pgdir_shift = 39

-- `PTRS_PER_PTE` and the same of the other three levels.
abbrev pub ptrs_per_table : ℕ
ptrs_per_table = 512

abbrev pub type_sect : ℕ
type_sect = 1

abbrev pub type_table : ℕ
type_table = 3

abbrev pub pte_table_bit : ℕ
pte_table_bit = 2

abbrev pub pte_addr_mask : ℕ
pte_addr_mask = (2 ^ 36 - 1) * 2 ^ 12

abbrev pub no_block_mappings : ℕ
no_block_mappings = 1

pub record PhysMemory : Type 0 where
  pub words : ℕ → ℕ
  pub pages : PageAlloc

-- `pgd_addr_end` and the same of the other levels, by their shift.
unfoldable pub addr_end : (shift addr end_addr : ℕ) → ℕ
addr_end shift addr end_addr =
    let boundary = and_not (u64 (addr + 2 ^ shift)) (2 ^ shift - 1) in
    if ltb (u64 (boundary + 2 ^ 64 - 1)) (u64 (end_addr + 2 ^ 64 - 1)) then boundary else end_addr

-- `pgd_index` and the same of the other levels.
unfoldable pub table_index : (shift addr : ℕ) → ℕ
table_index shift addr = bit_and (addr / 2 ^ shift) (ptrs_per_table - 1)

-- `pgd_page_paddr`, `pud_page_paddr` and `pmd_page_paddr`.
unfoldable pub page_paddr : ℕ → ℕ
page_paddr entry = bit_and entry pte_addr_mask

-- `set_pgd`, `set_pud`, `set_pmd` and `set_pte`, less the barrier.
unfoldable pub set_entry : (entryp entry : ℕ) → PhysMemory → PhysMemory
set_entry entryp entry s = record s { words = update s.words entryp entry }

-- `pud_offset_phys`, `pmd_offset_phys` and `pte_offset_phys`: the entry for `addr` in the table that
-- the entry at `entryp` points to.
unfoldable pub offset_phys : (shift entryp addr : ℕ) → PhysMemory → ℕ
unfolding page_paddr table_index
offset_phys shift entryp addr s = page_paddr (s.words entryp) + table_index shift addr * 8

unfoldable pub mk_sect_prot : ℕ → ℕ
mk_sect_prot prot = and_not prot pte_table_bit

abbrev pub clear_page : ℕ → (ℕ → ℕ) → ℕ → ℕ
clear_page p words a = if leb p a && ltb a (p + page_size) then 0 else words a

-- A page set to 0. That `get_free_page` may return 0 is not looked at.
unfoldable pub early_pgtable_alloc : PhysMemory → ℕ × PhysMemory
early_pgtable_alloc s =
    let (phys, pages) = get_free_page s.pages in
    (phys, record s { words = clear_page phys s.words; pages = pages })

-- The same start of `alloc_init_pte`, `alloc_init_pmd` and `alloc_init_pud`: an empty entry gets a
-- new table.
unfoldable pub fill_entry : (entryp : ℕ) → PhysMemory → PhysMemory
unfolding early_pgtable_alloc set_entry
fill_entry entryp s =
    let (phys, s1) = early_pgtable_alloc s in
    if s.words entryp == 0 then set_entry entryp (bit_or phys type_table) s1 else s

-- The loop of `alloc_init_pte`, on fuel.
unfoldable pub set_ptes : (fuel ptep addr end_addr phys prot : ℕ) → PhysMemory → Option PhysMemory
unfolding set_entry
set_ptes zero ptep addr end_addr phys prot s = none
set_ptes (suc fuel) ptep addr end_addr phys prot s =
    let s1 = set_entry ptep (bit_or (phys / 2 ^ page_shift * 2 ^ page_shift) prot) s in
    let next = u64 (addr + page_size) in
    let rest = set_ptes fuel (ptep + 8) next end_addr (u64 (phys + page_size)) prot s1 in
    if next == end_addr then some s1 else rest

unfoldable pub alloc_init_pte : (pmdp addr end_addr phys prot : ℕ) → PhysMemory → Option PhysMemory
unfolding fill_entry set_ptes offset_phys
alloc_init_pte pmdp addr end_addr phys prot s =
    let s1 = fill_entry pmdp s in
    set_ptes ptrs_per_table (offset_phys page_shift pmdp addr s1) addr end_addr phys prot s1

unfoldable pub pmd_set_section : (pmdp phys prot : ℕ) → PhysMemory → PhysMemory
unfolding mk_sect_prot set_entry
pmd_set_section pmdp phys prot s =
    set_entry pmdp
      (bit_or (phys / 2 ^ pmd_shift * 2 ^ pmd_shift) (bit_or type_sect (mk_sect_prot prot))) s

-- The loop that `alloc_init_pmd`, `alloc_init_pud` and `__create_pgd_mapping` each have, on fuel:
-- `map_one` at each entry and its part of the range.
unfoldable pub each_entry :
    (shift : ℕ) (map_one : (entryp addr next phys : ℕ) → PhysMemory → Option PhysMemory)
    → (fuel entryp addr end_addr phys : ℕ) → PhysMemory
    → Option PhysMemory
unfolding addr_end
each_entry shift map_one zero entryp addr end_addr phys s = none
each_entry shift map_one (suc fuel) entryp addr end_addr phys s =
    let next = addr_end shift addr end_addr in
    elim (map_one entryp addr next phys s) [
      | none ↦ none
      | some s1 ↦
          let rest =
            each_entry shift map_one fuel (entryp + 8) next end_addr
              (u64 (phys + (next + 2 ^ 64 - addr))) s1 in
          if next == end_addr then some s1 else rest
    ]

-- The body of the loop of `alloc_init_pmd`.
unfoldable pub map_pmd :
    (prot flags : ℕ) → (pmdp addr next phys : ℕ) → PhysMemory → Option PhysMemory
unfolding alloc_init_pte pmd_set_section
map_pmd prot flags pmdp addr next phys s =
    if bit_and (bit_or (bit_or addr next) phys) (2 ^ pmd_shift - 1) == 0
      && bit_and flags no_block_mappings == 0
    then some (pmd_set_section pmdp phys prot s)
    else alloc_init_pte pmdp addr next phys prot s

unfoldable pub alloc_init_pmd :
    (prot flags : ℕ) → (pudp addr end_addr phys : ℕ) → PhysMemory → Option PhysMemory
unfolding fill_entry each_entry map_pmd offset_phys
alloc_init_pmd prot flags pudp addr end_addr phys s =
    let s1 = fill_entry pudp s in
    each_entry pmd_shift (map_pmd prot flags) ptrs_per_table (offset_phys pmd_shift pudp addr s1)
      addr end_addr phys s1

unfoldable pub alloc_init_pud :
    (prot flags : ℕ) → (pgdp addr end_addr phys : ℕ) → PhysMemory → Option PhysMemory
unfolding fill_entry each_entry alloc_init_pmd offset_phys
alloc_init_pud prot flags pgdp addr end_addr phys s =
    let s1 = fill_entry pgdp s in
    each_entry pud_shift (alloc_init_pmd prot flags) ptrs_per_table
      (offset_phys pud_shift pgdp addr s1) addr end_addr phys s1

-- `__create_pgd_mapping`.
unfoldable pub create_pgd_mapping :
    (pgdir phys virt size prot flags : ℕ) → PhysMemory → Option PhysMemory
unfolding each_entry alloc_init_pud table_index page_align page_align_down
create_pgd_mapping pgdir phys virt size prot flags s =
    each_entry pgdir_shift (alloc_init_pud prot flags) ptrs_per_table
      (pgdir + table_index pgdir_shift virt * 8) (page_align_down virt)
      (page_align (u64 (virt + size))) (page_align_down phys) s
