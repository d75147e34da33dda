-- ===== src/PageTable/Create.antt =====
-- The functions of mmu.c, from the pages up to `__create_pgd_mapping`.
use arm64os.Common.{
  ℕ, suc, ◌+◌, ◌-◌, ◌*◌, ◌/◌, ◌%◌, ◌^◌, ◌<◌, ◌≤◌, ◌≡◌, ◌≢◌, ◌⊎◌, inl, inr, some, arith, refl, ap,
  sym, ◌∙◌, Bool-cases, ◌==◌, ==_iff, true, false, bit_or, bit_and, ◌&&◌, Bool,
}
use arm64os.Common.Bits.{and_low_mask, or_split, or_bounds, or-lt}
use arm64os.PageAlloc.{page_align, page_align_down}
use arm64os.PageAlloc.Init.{page_align_lem, page_align_down_lem}
use arm64os.PageTable.{
  PhysMemory, fill_entry, set_ptes, each_entry, alloc_init_pte, alloc_init_pmd, alloc_init_pud,
  map_pmd, pmd_set_section, create_pgd_mapping, table_index,
}
use arm64os.PageTable.Walk.{part, target, entry_address, leaf, decode, translate}
use arm64os.PageTable.Labels.{Labels, IsTables, IsRoot}
use arm64os.PageTable.Frame.{part_split}
use arm64os.PageTable.Entry.{IsPageProt, translation, table_index_lem}
use arm64os.PageTable.Write.{section-Mapped}
use arm64os.PageTable.Run.{Run, Chunk, under-Run, offset_phys_lem}
use arm64os.PageTable.Loops.{
  Ends, set_ptes-Run, table-Run, pmd_end-IsPartEnd, pud_end-IsPartEnd, pgd_end-IsPartEnd,
}
use arm64os.PageTable.Fill.{IsFull}

or-aligned : (a b : ℕ) → bit_or a b % 2 ^ 21 ≡ 0 → (a % 2 ^ 21 ≡ 0) × (b % 2 ^ 21 ≡ 0)
or-aligned a b h =
    let low_a = a % 2 ^ 21 in
    let low_b = b % 2 ^ 21 in
    let whole_a : a / 2 ^ 21 * 2 ^ 21 + low_a ≡ a = omega arith in
    let whole_b : b / 2 ^ 21 * 2 ^ 21 + low_b ≡ b = omega arith in
    let split = or_split 21 (a / 2 ^ 21) low_a (b / 2 ^ 21) low_b (omega arith) (omega arith) in
    omega (
      arith,
      rw (whole_a, whole_b) at split,
      or_bounds low_a low_b,
      or-lt 21 low_a low_b (omega arith) (omega arith),
    )

-- The test for a section: all three numbers are aligned to 2 MB.
section_test :
    (a b c : ℕ)
    → (bit_and (bit_or (bit_or a b) c) (2 ^ 21 - 1) == 0) ≡ true
    → (a % 2 ^ 21 ≡ 0) × (b % 2 ^ 21 ≡ 0) × (c % 2 ^ 21 ≡ 0)
section_test a b c h =
    let x = bit_or (bit_or a b) c in
    let m : x % 2 ^ 21 ≡ 0 = sym (and_low_mask 21 x) ∙ (==_iff (bit_and x (2 ^ 21 - 1)) 0).0 h in
    let (ab, in_c) = or-aligned (bit_or a b) c m in
    let (in_a, in_b) = or-aligned a b ab in (in_a, in_b, in_c)

and-true : (a b : Bool) → (a && b) ≡ true → a ≡ true
and-true true b h = refl
and-true false b h = cc

module _ (root prot flags : ℕ) (r : IsRoot root) (p : IsPageProt prot) where
  alloc_init_pte-Run :
      (T lo hi phys : ℕ) (s : PhysMemory)
      → Chunk 1 lo hi phys
      → Ends
          (alloc_init_pte (entry_address T 1 lo) lo hi phys prot s)
          (Run root prot 1 T lo hi phys s)
  unfolding alloc_init_pte
  alloc_init_pte-Run T lo hi phys s c =
      let entryp = entry_address T 1 lo in
      let s1 = fill_entry entryp s in
      let C = target (s1.words entryp) in
      let (t, runs, run) =
        set_ptes-Run root prot r p 512 C lo hi phys s1 c (omega (arith, c.one_entry)) in
      (
        t,
        ap (λ a. set_ptes 512 a lo hi phys prot s1) (offset_phys_lem 12 0 entryp lo s1 refl) ∙ runs,
        under-Run root prot r 0 T lo hi phys s t c run,
      )

  section-Run :
      (T lo hi phys : ℕ) (s : PhysMemory)
      → Chunk 1 lo hi phys
      → lo % 2 ^ 21 ≡ 0
      → hi % 2 ^ 21 ≡ 0
      → phys % 2 ^ 21 ≡ 0
      → Run root prot 1 T lo hi phys s (pmd_set_section (entry_address T 1 lo) phys prot s)
  unfolding pmd_set_section
  section-Run T lo hi phys s c lo_aligned hi_aligned phys_aligned =
      let whole : lo + 2 ^ 21 ≡ hi =
        omega (arith, c.one_entry, c.some_address, lo_aligned, hi_aligned) in
      record {
        stays_full = λ full. full;
        result = inr (λ g before. (
          g,
          rw whole at (
              section-Mapped root prot r p g s before.tables T lo phys
                (omega (arith, c.physical, c.some_address)) (part 1 lo % 512) before.covers.level
                (omega arith)
                (part_split 1 (g.number T) lo
                  (before.covers.region lo (omega arith) c.some_address))
                lo_aligned phys_aligned),
        ));
      }

  map_pmd-Run :
      (T lo hi phys : ℕ) (s : PhysMemory)
      → Chunk 1 lo hi phys
      → Ends
          (map_pmd prot flags (entry_address T 1 lo) lo hi phys s)
          (Run root prot 1 T lo hi phys s)
  unfolding map_pmd
  map_pmd-Run T lo hi phys s c =
      let aligned = bit_and (bit_or (bit_or lo hi) phys) (2 ^ 21 - 1) == 0 in
      let allowed = bit_and flags 1 == 0 in
      elim (Bool-cases (aligned && allowed)) [
        | inl yes_section ↦
            let (a, b, d) = section_test lo hi phys (and-true aligned allowed yes_section) in
            (
              pmd_set_section (entry_address T 1 lo) phys prot s,
              rw yes_section,
              section-Run T lo hi phys s c a b d,
            )
        | inr pages ↦
            let (t, runs, run) = alloc_init_pte-Run T lo hi phys s c in (t, rw pages runs, run)
      ]

  alloc_init_pmd-Run :
      (T lo hi phys : ℕ) (s : PhysMemory)
      → Chunk 2 lo hi phys
      → Ends
          (alloc_init_pmd prot flags (entry_address T 2 lo) lo hi phys s)
          (Run root prot 2 T lo hi phys s)
  unfolding alloc_init_pmd
  alloc_init_pmd-Run T lo hi phys s c =
      let entryp = entry_address T 2 lo in
      let s1 = fill_entry entryp s in
      let C = target (s1.words entryp) in
      let (t, runs, run) =
        table-Run root prot r 1 21 (map_pmd prot flags) pmd_end-IsPartEnd map_pmd-Run C lo hi phys
          s1 c in
      (
        t,
        ap (λ a. each_entry 21 (map_pmd prot flags) 512 a lo hi phys s1)
              (offset_phys_lem 21 1 entryp lo s1 (omega arith))
            ∙ runs,
        under-Run root prot r 1 T lo hi phys s t c run,
      )

  alloc_init_pud-Run :
      (T lo hi phys : ℕ) (s : PhysMemory)
      → Chunk 3 lo hi phys
      → Ends
          (alloc_init_pud prot flags (entry_address T 3 lo) lo hi phys s)
          (Run root prot 3 T lo hi phys s)
  unfolding alloc_init_pud
  alloc_init_pud-Run T lo hi phys s c =
      let entryp = entry_address T 3 lo in
      let s1 = fill_entry entryp s in
      let C = target (s1.words entryp) in
      let (t, runs, run) =
        table-Run root prot r 2 30 (alloc_init_pmd prot flags) pud_end-IsPartEnd alloc_init_pmd-Run
          C lo hi phys s1 c in
      (
        t,
        ap (λ a. each_entry 30 (alloc_init_pmd prot flags) 512 a lo hi phys s1)
              (offset_phys_lem 30 2 entryp lo s1 (omega arith))
            ∙ runs,
        under-Run root prot r 2 T lo hi phys s t c run,
      )

-- The last address that a call maps, and the one after it, lie in the space of the tables.
pub record IsRange (phys virt size : ℕ) : Type 0 where
  pub some_size : 0 < size
  pub virtual : virt + size + 4095 ≤ 2 ^ 48
  pub physical : phys + size + 2 * 4096 ≤ 2 ^ 48

-- The tables at `root` in memory are sound: each page that an entry points to is a used one, and is a
-- table at one place only.
pub record IsSound (root : ℕ) (s : PhysMemory) : Type 0 where
  pub labels : Labels
  pub tables : IsTables root labels s
  pub top : labels.level root ≡ 4
  pub whole : labels.number root ≡ 0

-- No address of the range is mapped by a section.
abbrev pub NoSection : (root lo hi : ℕ) → PhysMemory → Type 0
NoSection root lo hi s =
    (va : ℕ) → lo ≤ va → va < hi → (e k : ℕ) → leaf s.words 4 root va ≢ some (e, suc k)

pub record Created (root prot lo hi phys : ℕ) (s t : PhysMemory) : Type 0 where
  pub sound : IsSound root t
  pub inside :
      (va : ℕ)
      → lo ≤ va
      → va < hi
      → translate t.words root va ≡ some (translation prot (phys + (va - lo)))
  pub outside :
      (va : ℕ)
      → va < 2 ^ 48
      → (va < lo) ⊎ (hi ≤ va)
      → translate t.words root va ≡ translate s.words root va

pub create_pgd_mapping-Run :
    (root prot phys virt size flags : ℕ) (s : PhysMemory)
    → IsRoot root
    → IsPageProt prot
    → IsRange phys virt size
    → Ends (create_pgd_mapping root phys virt size prot flags s) (
        Run root prot 3 root
          (virt / 4096 * 4096)
          ((virt + size + 4095) / 4096 * 4096)
          (phys / 4096 * 4096)
          s)
unfolding create_pgd_mapping
create_pgd_mapping-Run root prot phys virt size flags s r p range =
    let lo = virt / 4096 * 4096 in
    let hi = (virt + size + 4095) / 4096 * 4096 in
    let start : page_align_down virt ≡ lo = page_align_down_lem virt in
    let stop : page_align ((virt + size) % 2 ^ 64) ≡ hi =
      let small : (virt + size) % 2 ^ 64 ≡ virt + size = omega (arith, range.virtual) in
      ap page_align small ∙ page_align_lem (virt + size) (omega (arith, range.virtual)) in
    let from : page_align_down phys ≡ phys / 4096 * 4096 = page_align_down_lem phys in
    let index : table_index 39 virt ≡ part 3 lo % 512 = table_index_lem 39 virt ∙ omega arith in
    rw (start, stop, from, index)
      (table-Run root prot r 3 39 (alloc_init_pud prot flags) pgd_end-IsPartEnd
        (alloc_init_pud-Run root prot flags r p) root lo hi (phys / 4096 * 4096) s
        record {
          some_address = omega (arith, range.some_size);
          lo_aligned = omega arith;
          hi_aligned = omega arith;
          phys_aligned = omega arith;
          virtual = omega (arith, range.virtual);
          physical = omega (arith, range.physical);
          one_entry = omega (arith, range.virtual);
        })

pub Run-Created :
    (root prot lo hi phys : ℕ) (s t : PhysMemory)
    → hi ≤ 2 ^ 48
    → IsSound root s
    → NoSection root lo hi s
    → Run root prot 3 root lo hi phys s t
    → IsFull t.pages ⊎ Created root prot lo hi phys s t
unfolding translate
Run-Created root prot lo hi phys s t small sound no_section run =
    let g = sound.labels in
    let whole = λ (va : ℕ) (h : va < 2 ^ 48).
      let q : part 4 va ≡ g.number root = omega (arith, h, sound.whole) in q in
    let ne : g.level root ≢ 0 = λ z. omega (arith, z, sound.top) in
    elim run.result [
      | inl full ↦ inl full
      | inr maps ↦
          let (g', m) = maps g record {
            tables = sound.tables;
            covers = record {
              level = sound.top;
              region = λ va a b. whole va (omega (arith, b, small));
            };
            no_section = no_section;
          } in
          inr record {
            sound = record {
              labels = g';
              tables = m.tables;
              top = m.kept.level root ne ∙ sound.top;
              whole = m.kept.number root ne ∙ sound.whole;
            };
            inside = m.inside;
            outside = λ va h out. ap (decode va) (m.outside 3 root va sound.top (whole va h) out);
          }
    ]

-- `__create_pgd_mapping` ends, its loops within 512 rounds each. Then the pages to allocate are used
-- up, or each address of the pages that hold the range from `virt` to `virt + size` translates to
-- the address as far behind the page of `phys`, with the attributes of `prot`; what the tables said
-- of other addresses stays, and the tables are sound. The tables must be sound before, with
-- no section in the range; the range is not empty and lies, as its image does, below 2 ^ 48.
pub create_pgd_mapping-Created :
    (root prot phys virt size flags : ℕ) (s : PhysMemory)
    → IsRoot root
    → IsPageProt prot
    → IsRange phys virt size
    → IsSound root s
    → NoSection root (virt / 4096 * 4096) ((virt + size + 4095) / 4096 * 4096) s
    → Ends (create_pgd_mapping root phys virt size prot flags s) (λ t.
      IsFull t.pages
      ⊎ Created root prot
          (virt / 4096 * 4096)
          ((virt + size + 4095) / 4096 * 4096)
          (phys / 4096 * 4096)
          s
          t)
create_pgd_mapping-Created root prot phys virt size flags s r p range sound no_section =
    let (t, runs, run) = create_pgd_mapping-Run root prot phys virt size flags s r p range in
    (
      t,
      runs,
      Run-Created root prot (virt / 4096 * 4096) ((virt + size + 4095) / 4096 * 4096)
          (phys / 4096 * 4096) s t (omega (arith, range.virtual)) sound no_section run,
    )
