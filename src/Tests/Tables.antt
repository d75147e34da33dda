-- ===== src/Tests/Tables.antt =====
-- Runs of the code on page tables: a table of empty entries, and all pages free.
use arm64os.Common.{
  ℕ, ◌≡◌, ◌≢◌, ◌⊎◌, refl, arith, some, none, Option, [], ok, ◌%◌, ◌^◌, ◌==◌, ◌/◌, false,
}
use arm64os.Boot.{MmuUnit}
use arm64os.Boot.Par.{par_to, par_failed}
use arm64os.PageAlloc.{get_free_page}
use arm64os.PageTable.{PhysMemory, create_pgd_mapping}
use arm64os.PageTable.Walk.{Translation, leaf, translate}
use arm64os.PageTable.Labels.{IsRoot}
use arm64os.PageTable.Entry.{translation}
use arm64os.PageTable.Loops.{Ends}
use arm64os.PageTable.Fill.{IsFull}
use arm64os.PageTable.Create.{Created, create_pgd_mapping-Created}
use arm64os.Mmu.{MmuImage, SystemRegisters, page_kernel}
use arm64os.Mmu.Attributes.{memory_type}
use arm64os.Mmu.Start.{
  emptied, emptied-IsSound, emptied-unmapped, unmapped-NoSection, page_kernel-IsPageProt,
}
use arm64os.Dump.{walk_pgtable}
use arm64os.Dump.Entry.{Found, walk_pgtable-Found}
use arm64os.Dump.Lines.{walk_pud}
use arm64os.Dump.Whole.{walk_pud-endless}

abbrev pgdir : ℕ
pgdir = 0x90000

abbrev before : PhysMemory
before = record { words = λ _. 1; pages = record { mem_map = λ _. 0; phy_start_address = 0 } }

abbrev cleared : PhysMemory
cleared = emptied pgdir before

pgdir-IsRoot : IsRoot pgdir
pgdir-IsRoot = record { aligned = refl; apart = λ j h. omega arith }

create_pgd_mapping-Created_example :
    Ends
      (create_pgd_mapping pgdir 0x400000 0x200000 0x3000 page_kernel 0 cleared)
      (λ t. IsFull t.pages ⊎ Created pgdir page_kernel 0x200000 0x203000 0x400000 cleared t)
create_pgd_mapping-Created_example =
    create_pgd_mapping-Created pgdir page_kernel 0x400000 0x200000 0x3000 0 cleared pgdir-IsRoot
      page_kernel-IsPageProt
      (record { some_size = omega arith; virtual = omega arith; physical = omega arith })
      (emptied-IsSound pgdir before)
      (unmapped-NoSection pgdir 0x200000 0x203000 cleared
        (λ va a b. emptied-unmapped pgdir va before))

abbrev mmu_image : MmuImage
mmu_image = record { idmap_pgd_dir = pgdir; text_boot_start = 0x80000; text_end = 0x8F000 }

abbrev registers : SystemRegisters
registers = record {
  cpacr_el1 = 0;
  mdscr_el1 = 0;
  mair_el1 = 0;
  tcr_el1 = 0;
  ttbr0_el1 = 0;
  sctlr_el1 = 0;
}

walk_pgtable-Found_example :
    Found (walk_pgtable pgdir 0x5000 cleared) (leaf cleared.words 4 pgdir 0x5000) cleared
walk_pgtable-Found_example =
    walk_pgtable-Found pgdir 0x5000 cleared (emptied-IsSound pgdir before) (omega arith)

walk_pud-endless_example : walk_pud 0 512 pgdir 0 0x80000000 cleared ≢ ok []
walk_pud-endless_example =
    walk_pud-endless 0 512 pgdir 0 0x80000000 cleared [] (omega arith) (omega arith) refl

-- Two pages are mapped, with a table for each level, and a third is not.
abbrev translated : ℕ → Option PhysMemory → Option Translation
translated va none = none
translated va (some t) = translate t.words pgdir va

mapped_page :
    translated 0x201234 (create_pgd_mapping pgdir 0x400000 0x200000 0x2000 page_kernel 0 cleared)
    ≡ some (translation page_kernel 0x401234)
unfolding create_pgd_mapping translate get_free_page
mapped_page = refl

unmapped_page :
    translated 0x202000 (create_pgd_mapping pgdir 0x400000 0x200000 0x2000 page_kernel 0 cleared)
    ≡ none
unfolding create_pgd_mapping translate get_free_page
unmapped_page = refl

-- A unit that walks the tables.
abbrev walking : (ℕ → ℕ) → SystemRegisters → MmuUnit
walking m regs = record {
  par = λ va. elim (translate m pgdir va) [
    | none ↦ par_failed 7
    | some e ↦ par_to (e.address / 4096) (memory_type regs e) 3 1
  ];
  stores = λ va. elim (translate m pgdir va) [
    | none ↦ false
    | some e ↦ e.low_attributes / 2 ^ 5 % 2 == 0
  ];
}
