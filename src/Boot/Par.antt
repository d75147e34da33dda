-- ===== src/Boot/Par.antt =====
-- The result of an address translation, as `parse_par_el1` reads it.
use arm64os.Common.{
  ℕ, none, some, ◌+◌, ◌-◌, ◌*◌, ◌/◌, ◌%◌, ◌^◌, ◌<◌, ◌≡◌, arith, List, [], ◌∷◌, ◌++◌, bit_and, true,
  false,
}
use arm64os.Common.Bits.{and_low_mask, and_not}
use arm64os.Common.Print.{PrintCall, say}
use arm64os.PageAlloc.{total_memory}
use arm64os.PageTable.Walk.{Translation, translate}
use arm64os.Mmu.{SystemRegisters}
use arm64os.Mmu.Attributes.{memory_type}
use arm64os.Boot.{parse_par_el1, MmuUnit}

-- PAR_EL1 of a translation to page `page`, with an attribute, a shareability and the NS bit, where bit
-- 11 is always 1, and of one that failed for a reason.
abbrev pub par_to : (page attr share ns : ℕ) → ℕ
par_to page attr share ns = attr * 2 ^ 56 + page * 2 ^ 12 + 2 ^ 11 + ns * 2 ^ 9 + share * 2 ^ 7

abbrev pub par_failed : (status : ℕ) → ℕ
par_failed status = status * 2 + 1

abbrev pub lines_of : (page attr share ns : ℕ) → List PrintCall
lines_of page attr share ns =
    say "Address Translation instruction %s\n" [] ("successfully" ∷ [])
    ∷ say "par_el1:0x%lx, PA: 0x%lx\n" (par_to page attr share ns ∷ page * 4096 ∷ []) []
    ∷ say "  NS=%u\n" (ns ∷ []) []
    ∷ say "  SH=%u\n" (share ∷ []) []
    ∷ say "  ATTR=0x%x\n" (attr ∷ []) []
    ∷ []

pub parse_par_el1-par_to :
    (page attr share ns : ℕ)
    → page < 2 ^ 28
    → attr < 2 ^ 8
    → share < 4
    → ns < 2
    → parse_par_el1 (par_to page attr share ns) ≡ (page * 4096, lines_of page attr share ns)
unfolding parse_par_el1
parse_par_el1-par_to page attr share ns p a s n =
    let v = par_to page attr share ns in
    let low : bit_and v 1 ≡ 0 = omega (arith, and_low_mask 1 v) in
    let frame : bit_and (and_not v 0xfff) 0xffffffffff ≡ page * 4096 =
      omega (arith, and_low_mask 12 v, and_low_mask 40 (and_not v 0xfff), p, s, n) in
    let n_bit : bit_and (v / 2 ^ 9) 1 ≡ ns = omega (arith, and_low_mask 1 (v / 2 ^ 9), p, s, n) in
    let s_bits : bit_and (v / 2 ^ 7) 3 ≡ share =
      omega (arith, and_low_mask 2 (v / 2 ^ 7), p, s, n) in
    let top : v / 2 ^ 56 ≡ attr = omega (arith, p, s, n) in rw (low, frame, n_bit, s_bits, top)

-- What the architecture says of a unit that is on, for the tables `m` at `root`: a translation shows its
-- page, and the byte of MAIR_EL1 that it selects; what has no translation fails; and a store to a page
-- is done where bit 7 of its entry lets it.
pub record IsMmuUnit (root : ℕ) (m : ℕ → ℕ) (regs : SystemRegisters) (u : MmuUnit) : Type 0 where
  pub translated :
      (va : ℕ) (e : Translation)
      → translate m root va ≡ some e
      → (share : ℕ) × (ns : ℕ) × (share < 4)
        × (ns < 2)
        × (u.par va ≡ par_to (e.address / 4096) (memory_type regs e) share ns)
  pub failed : (va : ℕ) → translate m root va ≡ none → (status : ℕ) × (u.par va ≡ par_failed status)
  pub stored :
      (va : ℕ) (e : Translation)
      → translate m root va ≡ some e
      → e.low_attributes / 2 ^ 5 % 2 ≡ 0
      → u.stores va ≡ true
  pub refused : (va : ℕ) → translate m root va ≡ none → u.stores va ≡ false

-- The lines of `test_mmu` for memory that is write-back and its own image up to its end.
abbrev pub expected_lines : (share ns : ℕ) → List PrintCall
expected_lines share ns =
    lines_of (total_memory / 4096 - 1) 0xff share ns
    ++ (say "test AT instruction %s\n" [] ("done" ∷ [])
        ∷ say "Address Translation instruction %s\n" [] ("failed" ∷ [])
        ∷ say "test AT instruction %s\n" [] ("failed" ∷ [])
        ∷ say "%s access 0x%x done\n" ((total_memory - 4096) ∷ []) ("test_access_map_address" ∷ [])
        ∷ [])
