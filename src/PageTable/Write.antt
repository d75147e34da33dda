-- ===== src/PageTable/Write.antt =====
-- Writing one entry: a page, or a section of 2 MB.
use arm64os.Common.{
  ℕ, suc, ◌+◌, ◌-◌, ◌*◌, ◌/◌, ◌%◌, ◌^◌, ◌<◌, ◌≤◌, ◌≡◌, ◌≢◌, ◌⊎◌, inl, inr, some, arith, refl, ap,
  sym, ◌∙◌, Bool-cases, ◌==◌, ==_iff, bit_or,
}
use arm64os.PageTable.{PhysMemory, set_entry, pmd_set_section, mk_sect_prot}
use arm64os.PageTable.Walk.{part, entry_address, leaf, output, decode}
use arm64os.PageTable.Labels.{Labels, EntryFits, IsTables, IsRoot, table-aligned, entry_unique}
use arm64os.PageTable.Frame.{leaf_kept, leaf_page, leaf_block}
use arm64os.PageTable.Entry.{translation, IsPageProt, or-prot, sect_prot_lem}
use arm64os.PageTable.Mapped.{Mapped, IsKept}

pub set_entry_at : (p e : ℕ) (s : PhysMemory) → (set_entry p e s).words p ≡ e
unfolding set_entry
set_entry_at p e s = ground arith

pub set_entry_off : (p e a : ℕ) (s : PhysMemory) → a ≢ p → (set_entry p e s).words a ≡ s.words a
unfolding set_entry
set_entry_off p e a s ne = ground arith

pub set_entry-pages : (p e : ℕ) (s : PhysMemory) → (set_entry p e s).pages ≡ s.pages
unfolding set_entry
set_entry-pages p e s = refl

pub decode-some :
    (va e l prot a : ℕ)
    → output e l va ≡ a
    → e % 2 ^ 12 / 4 ≡ prot % 2 ^ 12 / 4
    → e / 2 ^ 48 ≡ prot / 2 ^ 48
    → decode va (some (e, l)) ≡ some (translation prot a)
decode-some va e l prot a address low high = rw (address, low, high)

pub IsKept-refl : (g : Labels) → IsKept g g
IsKept-refl g = record { level = λ x ne. refl; number = λ x ne. refl }

module _ (root : ℕ) (r : IsRoot root) (g : Labels) (s : PhysMemory) (tables : IsTables root g s)
    (l T i e : ℕ) (level : g.level T ≡ suc l) (small : i < 512) where
  -- An entry is the one that is written, or as it was.
  pub written_cases :
      (k y j : ℕ)
      → g.level y ≡ suc k
      → j < 512
      → ((k ≡ l) × (y ≡ T) × (j ≡ i))
        ⊎ ((set_entry (T + i * 8) e s).words (y + j * 8) ≡ s.words (y + j * 8))
  written_cases k y j h below = elim (Bool-cases (y + j * 8 == T + i * 8)) [
    | inl here ↦
        let aligned_y =
          table-aligned root y s.pages r (tables.placed y (λ z. omega (arith, z, h))) in
        let aligned_T =
          table-aligned root T s.pages r (tables.placed T (λ z. omega (arith, z, level))) in
        let (same, index) =
          entry_unique y T j i aligned_y aligned_T below small
            ((==_iff (y + j * 8) (T + i * 8)).0 here) in
        inl (omega (arith, sym h ∙ ap g.level same ∙ level), same, index)
    | inr other ↦ inr (set_entry_off (T + i * 8) e (y + j * 8) s (λ q. ground (arith, q, other)))
  ]

  pub set_entry-IsTables : EntryFits g l T i e → IsTables root g (set_entry (T + i * 8) e s)
  set_entry-IsTables fits = record {
    placed = rw (set_entry-pages (T + i * 8) e s) tables.placed;
    entries = λ k y j h below. elim (written_cases k y j h below) [
      | inl (same_level, same, index) ↦
          rw (same_level, same, index) (rw (set_entry_at (T + i * 8) e s) fits)
      | inr kept ↦ rw kept (tables.entries k y j h below)
    ];
  }

  -- A written entry maps a range that holds all that the entry is for.
  pub set_entry-Mapped :
      (prot lo hi phys : ℕ)
      → EntryFits g l T i e
      → ((va : ℕ) → part l va ≡ g.number T * 512 + i → (lo ≤ va) × (va < hi))
      → ((va : ℕ)
          → lo ≤ va
          → va < hi
          → decode va (leaf (set_entry (T + i * 8) e s).words (suc l) T va)
            ≡ some (translation prot (phys + (va - lo))))
      → Mapped root prot l T lo hi phys g g s (set_entry (T + i * 8) e s)
  set_entry-Mapped prot lo hi phys fits within inside = record {
    tables = set_entry-IsTables fits;
    kept = IsKept-refl g;
    above = λ k x j h up below. elim (written_cases k x j h below) [
      | inl (same_level, _, _) ↦ absurd (omega (arith, same_level, up))
      | inr kept ↦ kept
    ];
    inside = inside;
    outside = λ k x va h region out.
        leaf_kept root g s tables (set_entry (T + i * 8) e s).words va
          (λ m y j hy below. elim (written_cases m y j hy below) [
            | inl (same_level, same, index) ↦ inr (λ at_part.
                let (a, b) = within va (rw (same_level, same, index) at at_part) in
                elim out [
                  | inl before ↦ absurd (omega (arith, a, before))
                  | inr behind ↦ absurd (omega (arith, b, behind))
                ])
            | inr kept ↦ inl kept
          ])
          k x h region;
  }

  -- `e` is what stands at the entry for an address whose part is the entry's.
  pub written_at :
      (va : ℕ) → part l va % 512 ≡ i → (set_entry (T + i * 8) e s).words (entry_address T l va) ≡ e
  written_at va h = rw h (set_entry_at (T + i * 8) e s)

module _ (root prot : ℕ) (r : IsRoot root) (p : IsPageProt prot) (g : Labels) (s : PhysMemory)
    (tables : IsTables root g s) (T lo phys : ℕ) (phys_small : phys < 2 ^ 48) where
  -- One entry of the last level maps a page.
  pub page-Mapped :
      (i e : ℕ)
      → g.level T ≡ 1
      → i < 512
      → part 0 lo ≡ g.number T * 512 + i
      → lo % 2 ^ 12 ≡ 0
      → phys % 2 ^ 12 ≡ 0
      → e ≡ bit_or (phys / 2 ^ 12 * 2 ^ 12) prot
      → Mapped root prot 0 T lo (lo + 2 ^ 12) phys g g s (set_entry (T + i * 8) e s)
  page-Mapped i e level small here aligned phys_aligned is_entry =
      let whole : phys / 2 ^ 12 * 2 ^ 12 ≡ phys = omega arith in
      let sum : e ≡ phys + prot =
        is_entry
        ∙ ap (λ a. bit_or a prot) whole
        ∙ or-prot phys prot phys_aligned (omega arith) p.no_address in
      set_entry-Mapped root r g s tables 0 T i e level small prot lo (lo + 2 ^ 12) phys tt
        (λ va h. omega (arith, h))
        (λ va a b.
          let at_i : part 0 va % 512 ≡ i = omega arith in
          let found = written_at root r g s tables 0 T i e level small va at_i in
          rw (leaf_page (set_entry (T + i * 8) e s).words T va e found (omega (arith, p.page, sum)))
            (decode-some va e 0 prot (phys + (va - lo)) (omega (arith, sum, p.page, p.no_address))
              (omega (arith, sum, p.page, p.no_address))
              (omega (arith, sum, p.page, p.no_address))))

  -- A section entry maps 2 MB.
  pub section-Mapped :
      (i : ℕ)
      → g.level T ≡ 2
      → i < 512
      → part 1 lo ≡ g.number T * 512 + i
      → lo % 2 ^ 21 ≡ 0
      → phys % 2 ^ 21 ≡ 0
      → Mapped root prot 1 T lo (lo + 2 ^ 21) phys g g s (pmd_set_section (T + i * 8) phys prot s)
  unfolding pmd_set_section
  section-Mapped i level small here aligned phys_aligned =
      let e = bit_or (phys / 2 ^ 21 * 2 ^ 21) (bit_or 1 (mk_sect_prot prot)) in
      let whole : phys / 2 ^ 21 * 2 ^ 21 ≡ phys = omega arith in
      let sum : e ≡ phys + (prot - 2) =
        ap (λ a. bit_or a (bit_or 1 (mk_sect_prot prot))) whole
        ∙ ap (bit_or phys) (sect_prot_lem prot p.page)
        ∙ or-prot phys (prot - 2) (omega arith) (omega arith)
            (omega (arith, p.page, p.no_address)) in
      let block : e % 4 ≡ 1 = omega (arith, p.page, sum) in
      set_entry-Mapped root r g s tables 1 T i e level small prot lo (lo + 2 ^ 21) phys
        (inr (inl (refl, block))) (λ va h. omega (arith, h))
        (λ va a b.
          let at_i : part 1 va % 512 ≡ i = omega arith in
          let found = written_at root r g s tables 1 T i e level small va at_i in
          rw (leaf_block (set_entry (T + i * 8) e s).words 0 T va e found block) (
            decode-some va e 1 prot (phys + (va - lo)) (omega (arith, sum, p.page, p.no_address))
              (omega (arith, sum, p.page, p.no_address))
              (omega (arith, sum, p.page, p.no_address))))
