-- ===== src/Dump/Entry.antt =====
-- `walk_pgtable` finds the entry that the memory management unit uses.
use arm64os.Common.{
  ℕ, suc, ◌+◌, ◌*◌, ◌%◌, ◌≡◌, ◌≢◌, ◌⊎◌, inl, inr, some, none, arith, refl, ap, ◌∙◌, Bool-cases,
  ◌==◌, ==_iff, Option, true, false, if◌then◌else◌, bit_and, ◌||◌,
}
use arm64os.Common.Bits.{and_low_mask}
use arm64os.PageTable.{PhysMemory, offset_phys, table_index}
use arm64os.PageTable.Walk.{part, target, entry_address, leaf}
use arm64os.PageTable.Labels.{Labels, IsTables}
use arm64os.PageTable.Frame.{leaf_empty, leaf_block, leaf_table, leaf_page}
use arm64os.PageTable.Entry.{table_index_lem}
use arm64os.PageTable.Run.{offset_phys_lem}
use arm64os.PageTable.Create.{IsSound}
use arm64os.Dump.{walk_pgtable}

pub leaf_invalid :
    (m : ℕ → ℕ) (x va : ℕ) → (m (entry_address x 0 va) % 4 == 3) ≡ false → leaf m 1 x va ≡ none
unfolding leaf
leaf_invalid m x va h = rw h

-- What a walk of the code finds, next to what the unit does: nothing, the entry that it uses, or an
-- entry of the last level that is neither empty nor valid.
abbrev pub Found : ℕ → Option (ℕ × ℕ) → PhysMemory → Type 0
Found p used s =
    ((p ≡ 0) × (used ≡ none))
    ⊎ ((l : ℕ) × (p ≢ 0) × (used ≡ some (s.words p, l)))
    ⊎ ((p ≢ 0) × (s.words p ≢ 0) × (s.words p % 4 ≢ 3) × (used ≡ none))

-- The code's walk as the four addresses that it reads.
walk_steps : (pgd pud pmd pte : ℕ) → PhysMemory → ℕ
walk_steps pgd pud pmd pte s =
    if pgd == 0 || s.words pgd == 0
    then 0
    else if pud == 0 || s.words pud == 0
    then 0
    else if pmd == 0 || s.words pmd == 0
    then 0
    else if bit_and (s.words pmd) 3 == 1
    then pmd
    else if pte == 0 || s.words pte == 0
    then 0
    else pte

walk_pgtable-steps :
    (pgdir va : ℕ) (s : PhysMemory)
    → let pgd = pgdir + table_index 39 va * 8 in
      let pud = offset_phys 30 pgd va s in
      let pmd = offset_phys 21 pud va s in
      walk_pgtable pgdir va s ≡ walk_steps pgd pud pmd (offset_phys 12 pmd va s) s
unfolding walk_pgtable walk_steps
walk_pgtable-steps pgdir va s = refl

module _ (root va : ℕ) (g : Labels) (s : PhysMemory) (tables : IsTables root g s)
    (root_set : root ≢ 0) where
  not_null : (l x : ℕ) → g.level x ≡ suc l → (entry_address x l va == 0) ≡ false
  not_null l x h = elim (tables.placed x (λ z. omega (arith, z, h))) [
    | inl e ↦ ground (arith, e, root_set)
    | inr (j, below, e, used) ↦ ground (arith, e)
  ]

  last-Found :
      (x : ℕ)
      → g.level x ≡ 1
      → Found
          (if entry_address x 0 va == 0 || s.words (entry_address x 0 va) == 0
            then 0
            else entry_address x 0 va)
          (leaf s.words 1 x va)
          s
  last-Found x level =
      let p = entry_address x 0 va in
      let set : (p == 0) ≡ false = not_null 0 x level in
      let ne : p ≢ 0 = λ z. ground (arith, set, z) in
      elim (Bool-cases (s.words p == 0)) [
        | inl empty ↦
            rw (set, empty) (inl (refl, leaf_empty s.words 0 x va ((==_iff (s.words p) 0).0 empty)))
        | inr full ↦ elim (Bool-cases (s.words p % 4 == 3)) [
          | inl valid ↦
              rw (set, full)
                (inr (
                  inl (
                    0,
                    ne,
                    leaf_page s.words x va (s.words p) refl ((==_iff (s.words p % 4) 3).0 valid),
                  )))
          | inr invalid ↦
              rw (set, full)
                (inr (
                  inr (
                    ne,
                    (λ z. ground (arith, z, full)),
                    (λ z. ground (arith, z, invalid)),
                    leaf_invalid s.words x va invalid,
                  )))
        ]
      ]

  section-Found :
      (x rest : ℕ)
      → g.level x ≡ 2
      → (g.level (target (s.words (entry_address x 1 va))) ≡ 1
          → Found rest (leaf s.words 1 (target (s.words (entry_address x 1 va))) va) s)
      → Found
          (if entry_address x 1 va == 0 || s.words (entry_address x 1 va) == 0
            then 0
            else if bit_and (s.words (entry_address x 1 va)) 3 == 1
            then entry_address x 1 va
            else rest)
          (leaf s.words 2 x va)
          s
  section-Found x rest level next =
      let p = entry_address x 1 va in
      let e = s.words p in
      let set : (p == 0) ≡ false = not_null 1 x level in
      let ne : p ≢ 0 = λ z. ground (arith, set, z) in
      let low = and_low_mask 2 e in
      elim (tables.entries 1 x (part 1 va % 512) level (omega arith)) [
        | inl empty ↦ rw (set, empty) (inl (refl, leaf_empty s.words 1 x va empty))
        | inr (inl (_, block)) ↦
            let full : (e == 0) ≡ false = ground (arith, block) in
            let section : (bit_and e 3 == 1) ≡ true = (==_iff (bit_and e 3) 1).1 (low ∙ block) in
            rw (set, full, section) (inr (inl (1, ne, leaf_block s.words 0 x va e refl block)))
        | inr (inr (table, child, _)) ↦
            let full : (e == 0) ≡ false = ground (arith, table) in
            let no_section : (bit_and e 3 == 1) ≡ false = ground (arith, low, table) in
            rw (set, full, no_section, leaf_table s.words 0 x va e refl table) (next child)
      ]

  upper-Found :
      (l x rest : ℕ)
      → g.level x ≡ suc (suc (suc l))
      → (g.level (target (s.words (entry_address x (suc (suc l)) va))) ≡ suc (suc l)
          → Found rest
              (leaf s.words (suc (suc l)) (target (s.words (entry_address x (suc (suc l)) va))) va)
              s)
      → Found
          (if entry_address x (suc (suc l)) va == 0
              || s.words (entry_address x (suc (suc l)) va) == 0
            then 0
            else rest)
          (leaf s.words (suc (suc (suc l))) x va)
          s
  upper-Found l x rest level next =
      let p = entry_address x (suc (suc l)) va in
      let e = s.words p in
      let set : (p == 0) ≡ false = not_null (suc (suc l)) x level in
      elim (tables.entries (suc (suc l)) x (part (suc (suc l)) va % 512) level (omega arith)) [
        | inl empty ↦ rw (set, empty) (inl (refl, leaf_empty s.words (suc (suc l)) x va empty))
        | inr (inl (z, _)) ↦ absurd (omega (arith, z))
        | inr (inr (table, child, _)) ↦
            let full : (e == 0) ≡ false = ground (arith, table) in
            rw (set, full, leaf_table s.words (suc l) x va e refl table) (next child)
      ]

-- `walk_pgtable` returns the address of the very entry by which the unit translates the address, and 0
-- where it finds no entry; only for an entry of the last level that is not empty and not valid, which
-- the unit refuses, does it return its address too. The tables are sound and not at address 0.
pub walk_pgtable-Found :
    (pgdir va : ℕ) (s : PhysMemory)
    → IsSound pgdir s
    → pgdir ≢ 0
    → Found (walk_pgtable pgdir va s) (leaf s.words 4 pgdir va) s
unfolding walk_steps
walk_pgtable-Found pgdir va s sound set =
    let g = sound.labels in
    let tables = sound.tables in
    let a3 = entry_address pgdir 3 va in
    let c2 = target (s.words a3) in
    let a2 = entry_address c2 2 va in
    let c1 = target (s.words a2) in
    let a1 = entry_address c1 1 va in
    let c0 = target (s.words a1) in
    let index : pgdir + table_index 39 va * 8 ≡ a3 =
      ap (λ (n : ℕ). pgdir + n * 8) (table_index_lem 39 va ∙ omega arith) in
    let e2 = offset_phys_lem 30 2 a3 va s (omega arith) in
    let e1 = offset_phys_lem 21 1 a2 va s (omega arith) in
    let e0 = offset_phys_lem 12 0 a1 va s refl in
    rw (walk_pgtable-steps pgdir va s, index, e2, e1, e0)
      (upper-Found pgdir va g s tables set 1 pgdir _ sound.top (λ h2.
        upper-Found pgdir va g s tables set 0 c2 _ h2 (λ h1.
          section-Found pgdir va g s tables set c1 _ h1
            (λ h0. last-Found pgdir va g s tables set c0 h0))))
