-- ===== src/Dump/Lines.antt =====
-- The dump: what `print_pgtable` and the walks over the four levels print, as a list of lines.
use Prim.Native.String.{String}
use arm64os.Common.{
  ℕ, zero, suc, ◌+◌, ◌-◌, ◌*◌, ◌/◌, ◌^◌, Bool, Option, none, some, ltb, ◌==◌, ◌||◌, List, [], ◌∷◌,
  ◌++◌, if◌then◌else◌, bit_and, bit_or, Result, ◌>>=◌, ok, fault, out_of_fuel, ended,
}
use arm64os.PageAlloc.{page_size, total_memory, u64}
use arm64os.PageTable.{
  PhysMemory, addr_end, table_index, offset_phys, page_shift, pmd_shift, pud_shift, pgdir_shift,
  type_sect,
}
use arm64os.Mmu.{pbase, device_size, pte_pxn, pte_uxn, pte_rdonly, pte_attrindx}

pub record ProtBits : Type 0 where
  pub mask : ℕ
  pub val : ℕ
  pub set : Option String
  pub clear : Option String

abbrev flag : ℕ → String → String → ProtBits
flag bits set clear = record { mask = bits; val = bits; set = some set; clear = some clear }

abbrev attribute : ℕ → String → ProtBits
attribute index name = record {
  mask = pte_attrindx 7;
  val = pte_attrindx index;
  set = some name;
  clear = none;
}

abbrev pub pte_bits : List ProtBits
pte_bits =
    flag 1 " " "F"
    ∷ flag (2 ^ 6) "USR" "   "
    ∷ flag pte_rdonly "ro" "RW"
    ∷ flag pte_pxn "NX" "x "
    ∷ flag (3 * 2 ^ 8) "SHD" "   "
    ∷ flag (2 ^ 10) "AF" "  "
    ∷ flag (2 ^ 11) "NG" "  "
    ∷ flag (2 ^ 52) "CON" "   "
    ∷ flag 2 "   " "BLK"
    ∷ record { mask = pte_uxn; val = pte_uxn; set = some "UXN"; clear = none }
    ∷ attribute 0 "DEVICE/nGnRnE"
    ∷ attribute 1 "DEVICE/nGnRE"
    ∷ attribute 2 "DEVICE/GRE"
    ∷ attribute 3 "MEM/NORMAL-NC"
    ∷ attribute 4 "MEM/NORMAL"
    ∷ []

-- `dump_prot`: the texts that it prints.
unfoldable pub dump_prot : (prot : ℕ) → List ProtBits → List String
dump_prot prot [] = []
dump_prot prot (b ∷ bits) = elim (if bit_and prot b.mask == b.val then b.set else b.clear) [
  | none ↦ dump_prot prot bits
  | some s ↦ s ∷ dump_prot prot bits
]

-- A line of the dump: the marker of the mapping, a range with its size and attributes, or the range
-- of an entry that points to a table.
pub data DumpLine : Type 0 where
  marker : DumpLine
  range : (level start end_addr delta unit : ℕ) → List String → DumpLine
  table : (level start end_addr : ℕ) → DumpLine

-- The loop that finds the unit, on fuel. Its second condition, on `units[1]`, always holds.
unfoldable pub scale : (fuel delta unit : ℕ) → Option (ℕ × ℕ)
scale zero delta unit = none
scale (suc fuel) delta unit =
    let rest = scale fuel (delta / 2 ^ 10) (unit + 1) in
    if bit_and delta 1023 == 0 then rest else some (delta, unit)

-- `print_pgtable`, with the mask of the level. A unit beyond the text "KMGT" and its end is a fault.
unfoldable pub print_pgtable : (mask start end_addr level val : ℕ) → Result (List DumpLine)
unfolding scale dump_prot
print_pgtable mask start end_addr level val =
    let marked = if start == 0 then marker ∷ [] else [] in
    let line = (do
      (delta, unit) ← ended (scale 64 (u64 (end_addr + 2 ^ 64 - start) / 2 ^ 10) 0)
      if ltb unit 5
          then ok (
              marked
              ++ range level start end_addr delta unit (dump_prot (bit_and val mask) pte_bits) ∷ [])
          else fault) in
    if val == 0 then ok marked else line

-- The loop of the four walks, on fuel, with the end of the part at an entry and what is done there.
unfoldable pub dump_entries :
    (next_of : ℕ → ℕ) (visit : (entryp addr next : ℕ) → Result (List DumpLine))
    → (fuel entryp addr end_addr : ℕ) → Result (List DumpLine)
dump_entries next_of visit zero entryp addr end_addr = out_of_fuel
dump_entries next_of visit (suc fuel) entryp addr end_addr =
    let next = next_of addr in
    let rest = dump_entries next_of visit fuel (entryp + 8) next end_addr in
    do
      lines ← visit entryp addr next
      if next == end_addr then ok lines else (do more ← rest; ok (lines ++ more))

-- An entry that is not empty and no section: its line, and those of the table that it points to.
abbrev descend : (level addr next : ℕ) → Result (List DumpLine) → Result (List DumpLine)
descend level addr next below = do lines ← below; ok (table level addr next ∷ lines)

unfoldable pub is_section : ℕ → Bool
is_section entry = bit_and entry 3 == type_sect

unfoldable pub walk_pte : (mask fuel pmdp start end_addr : ℕ) → PhysMemory → Result (List DumpLine)
walk_pte mask fuel pmdp start end_addr s =
    dump_entries (λ addr. u64 (addr + page_size))
      (λ ptep addr next. print_pgtable mask addr next 4 (s.words ptep)) fuel
      (offset_phys page_shift pmdp start s) start end_addr

-- What `walk_pmd` does at an entry.
unfoldable pub visit_pmd :
    (mask fuel : ℕ) → PhysMemory → (pmdp addr next : ℕ) → Result (List DumpLine)
visit_pmd mask fuel s pmdp addr next =
    if s.words pmdp == 0 || is_section (s.words pmdp)
    then print_pgtable mask addr next 3 (s.words pmdp)
    else descend 3 addr next (walk_pte mask fuel pmdp addr next s)

unfoldable pub walk_pmd : (mask fuel pudp start end_addr : ℕ) → PhysMemory → Result (List DumpLine)
walk_pmd mask fuel pudp start end_addr s =
    dump_entries (λ addr. addr_end pmd_shift addr end_addr) (visit_pmd mask fuel s) fuel
      (offset_phys pmd_shift pudp start s) start end_addr

unfoldable pub visit_pud :
    (mask fuel : ℕ) → PhysMemory → (pudp addr next : ℕ) → Result (List DumpLine)
visit_pud mask fuel s pudp addr next =
    if s.words pudp == 0 || is_section (s.words pudp)
    then print_pgtable mask addr next 2 (s.words pudp)
    else descend 2 addr next (walk_pmd mask fuel pudp addr next s)

-- The end of each part is computed from `start`, not from the address of the round.
unfoldable pub walk_pud : (mask fuel pgdp start end_addr : ℕ) → PhysMemory → Result (List DumpLine)
walk_pud mask fuel pgdp start end_addr s =
    dump_entries (λ addr. addr_end pud_shift start end_addr) (visit_pud mask fuel s) fuel
      (offset_phys pud_shift pgdp start s) start end_addr

unfoldable pub visit_pgd :
    (mask fuel : ℕ) → PhysMemory → (pgdp addr next : ℕ) → Result (List DumpLine)
visit_pgd mask fuel s pgdp addr next =
    if s.words pgdp == 0
    then print_pgtable mask addr next 1 (s.words pgdp)
    else descend 1 addr next (walk_pud mask fuel pgdp addr next s)

unfoldable pub walk_pgd : (mask fuel pgd start size : ℕ) → PhysMemory → Result (List DumpLine)
walk_pgd mask fuel pgd start size s =
    dump_entries (λ addr. addr_end pgdir_shift addr (u64 (start + size))) (visit_pgd mask fuel s)
      fuel (pgd + table_index pgdir_shift start * 8) start (u64 (start + size))

-- The masks that `pg_level_init` joins to the mask of each of the four levels.
unfoldable pub join_masks : (mask : ℕ) → List ProtBits → ℕ
join_masks mask [] = mask
join_masks mask (b ∷ bits) = join_masks (bit_or mask b.mask) bits

-- `dump_pgtable`, with `pg_level_init`: from the mask that the levels have, all four the same.
unfoldable pub dump_pgtable : (mask fuel pgdir : ℕ) → PhysMemory → Result (List DumpLine)
dump_pgtable mask fuel pgdir s =
    let all = join_masks mask pte_bits in
    do
      memory ← walk_pgd all fuel pgdir 0 total_memory s
      devices ← walk_pgd all fuel pgdir pbase device_size s
      ok (memory ++ devices)
