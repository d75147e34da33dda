-- ===== src/Dump.antt =====
-- arch/arm64/mach-rpi/dump_pgtable.c: the walk to one entry, and the dump of the tables as the list of
-- lines that it prints.
pub mod Entry
pub mod Lines
pub mod Unit
pub mod Shown
pub mod Levels
pub mod Whole
use arm64os.Common.{ℕ, ◌+◌, ◌*◌, ◌^◌, ◌==◌, ◌||◌, if◌then◌else◌, bit_and, bit_or, Result, ok, fault}
use arm64os.Common.Bits.{and_not}
use arm64os.PageTable.{
  PhysMemory, table_index, offset_phys, set_entry, page_shift, pmd_shift, pud_shift, pgdir_shift,
  type_sect,
}

-- `walk_pgtable`: the address of the entry, or 0 for NULL.
unfoldable pub walk_pgtable : (pgdir address : ℕ) → PhysMemory → ℕ
walk_pgtable pgdir address s =
    let pgd = pgdir + table_index pgdir_shift address * 8 in
    let pud = offset_phys pud_shift pgd address s in
    let pmd = offset_phys pmd_shift pud address s in
    let pte = offset_phys page_shift pmd address s in
    if pgd == 0 || s.words pgd == 0
    then 0
    else if pud == 0 || s.words pud == 0
    then 0
    else if pmd == 0 || s.words pmd == 0
    then 0
    else if bit_and (s.words pmd) 3 == type_sect
    then pmd
    else if pte == 0 || s.words pte == 0
    then 0
    else pte

-- `pte_mkyoung` and `pte_mkwrite`, by `set_pte_bit` and `clear_pte_bit`.
unfoldable pub pte_mkyoung : ℕ → ℕ
pte_mkyoung pte = bit_or pte (2 ^ 10)

unfoldable pub pte_mkwrite : ℕ → ℕ
pte_mkwrite pte = and_not (bit_or pte (2 ^ 51)) (2 ^ 7)

-- `test_walk_pgtable` up to the dump: the page at `readonly_page` becomes writable.
unfoldable pub test_walk_pgtable : (pgdir readonly_page : ℕ) → PhysMemory → Result PhysMemory
unfolding walk_pgtable pte_mkyoung pte_mkwrite set_entry
test_walk_pgtable pgdir readonly_page s =
    let ptep = walk_pgtable pgdir readonly_page s in
    if ptep == 0 then fault else ok (set_entry ptep (pte_mkwrite (pte_mkyoung (s.words ptep))) s)
