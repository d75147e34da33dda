-- ===== src/Boot.antt =====
-- init/main.c: the tests of the mappings and what is printed of the image, and
-- arch/arm64/kernel/arm64_irq.c.
pub mod Par
use Prim.Native.String.{String}
use arm64os.Common.{
  Bool, ℕ, ◌+◌, ◌-◌, ◌/◌, ◌%◌, ◌^◌, ◌==◌, if◌then◌else◌, List, [], ◌∷◌, ◌++◌, bit_and, Result,
}
use arm64os.Common.Int.{ℤ}
use arm64os.Common.Bits.{and_not}
use arm64os.Common.Print.{PrintCall, say}
use arm64os.PageAlloc.{total_memory}
use arm64os.Irq.{IrqState}
use arm64os.Irq.Gic.{gic_init}

-- The symbols of the linker that `print_mem` reads.
pub record Layout : Type 0 where
  pub text_boot_start : ℕ
  pub text_boot_end : ℕ
  pub text_start : ℕ
  pub text_end : ℕ
  pub rodata_start : ℕ
  pub rodata_end : ℕ
  pub data_start : ℕ
  pub data_end : ℕ
  pub bss_begin : ℕ
  pub bss_end : ℕ

-- The difference of two addresses as an `unsigned long`.
abbrev pub span : (start stop : ℕ) → List ℕ
span start stop = start ∷ stop ∷ (stop + 2 ^ 64 - start) % 2 ^ 64 ∷ []

unfoldable pub print_mem : Layout → List PrintCall
print_mem l =
    say "Arm64OS image layout:\n" [] []
    ∷ say "  .text.boot: 0x%08lx - 0x%08lx (%6ld B)\n" (span l.text_boot_start l.text_boot_end) []
    ∷ say "       .text: 0x%08lx - 0x%08lx (%6ld B)\n" (span l.text_start l.text_end) []
    ∷ say "     .rodata: 0x%08lx - 0x%08lx (%6ld B)\n" (span l.rodata_start l.rodata_end) []
    ∷ say "       .data: 0x%08lx - 0x%08lx (%6ld B)\n" (span l.data_start l.data_end) []
    ∷ say "        .bss: 0x%08lx - 0x%08lx (%6ld B)\n" (span l.bss_begin l.bss_end) []
    ∷ []

-- The address, or all ones, and what is printed.
unfoldable pub parse_par_el1 : ℕ → ℕ × List PrintCall
parse_par_el1 val =
    let ret = bit_and val 1 in
    let pa = bit_and (and_not val 0xfff) 0xffffffffff in
    if ret == 0
    then (
      pa,
      say "Address Translation instruction %s\n" [] ("successfully" ∷ [])
          ∷ say "par_el1:0x%lx, PA: 0x%lx\n" (val ∷ pa ∷ []) []
          ∷ say "  NS=%u\n" (bit_and (val / 2 ^ 9) 1 ∷ []) []
          ∷ say "  SH=%u\n" (bit_and (val / 2 ^ 7) 3 ∷ []) []
          ∷ say "  ATTR=0x%x\n" (val / 2 ^ 56 ∷ []) []
          ∷ [],
    )
    else (2 ^ 64 - 1, say "Address Translation instruction %s\n" [] ("failed" ∷ []) ∷ [])

-- What the memory management unit does: `par` is what PAR_EL1 reads after `mmu_at_test` of mm.S for an
-- address, and `stores` says whether a store to it is done, and does not end in an exception.
pub record MmuUnit : Type 0 where
  pub par : ℕ → ℕ
  pub stores : ℕ → Bool

-- How a run ends, with what is printed and what is stored, an address and a value each, the latest first:
-- it returns, or the access to an address ends it.
pub data Outcome : Type 0 where
  returned : List PrintCall → List (ℕ × ℕ) → Outcome
  aborted : (address : ℕ) → List PrintCall → List (ℕ × ℕ) → Outcome

-- One run behind another.
abbrev pub ◌then◌ : Outcome → Outcome → Outcome
aborted address lines stored then next = aborted address lines stored
returned lines stored then returned more others = returned (lines ++ more) (others ++ stored)
returned lines stored then aborted address more others =
    aborted address (lines ++ more) (others ++ stored)

infixr 5 ◌then◌
unfoldable pub test_access : MmuUnit → (name : String) → (address : ℕ) → Outcome
test_access u name address =
    if u.stores address
    then returned (say "%s access 0x%x done\n" (address ∷ []) (name ∷ []) ∷ [])
        ((address, 0x55) ∷ [])
    else aborted address [] []

unfoldable pub test_access_map_address : MmuUnit → Outcome
test_access_map_address u = test_access u "test_access_map_address" (total_memory - 4096)

unfoldable pub test_access_unmap_address : MmuUnit → Outcome
test_access_unmap_address u = test_access u "test_access_unmap_address" (total_memory + 4096)

-- The translation of one address, and whether it is its own image.
unfoldable pub test_translation : MmuUnit → (addr : ℕ) → List PrintCall
test_translation u addr =
    let (pa, lines) = parse_par_el1 (u.par addr) in
    lines
    ++ (say "test AT instruction %s\n" [] ((if addr == pa then "done" else "failed") ∷ []) ∷ [])

unfoldable pub test_mmu : MmuUnit → Outcome
test_mmu u =
    returned (test_translation u (total_memory - 4096) ++ test_translation u (total_memory + 4096))
      []
    then test_access_map_address u
    then test_access_unmap_address u

-- `arch_irq_init`, with the controller, and its addresses of mach/base.h.
unfoldable pub arch_irq_init : (readl : ℕ → ℕ) → (fuel gic : ℕ) → IrqState → Result (ℤ × IrqState)
arch_irq_init readl fuel gic s =
    gic_init readl fuel gic 0 (0xFF800000 + 0x41000) (0xFF800000 + 0x42000) s
