-- ===== src/Dump/Levels.antt =====
-- The four walks of the dump.
use arm64os.Common.{
  ℕ, suc, ◌+◌, ◌-◌, ◌*◌, ◌%◌, ◌^◌, ◌<◌, ◌≤◌, ◌≡◌, inl, inr, Option, some, none, arith, refl, ap,
  sym, ◌∙◌, Bool-cases, ◌==◌, ==_iff, true, false, Result, ok, ◌>>=◌, Returns, List, [], ◌∷◌,
  if◌then◌else◌, ◌||◌, Bool,
}
use arm64os.Common.Bits.{and_low_mask}
use arm64os.PageTable.{PhysMemory, addr_end}
use arm64os.PageTable.Walk.{part, target, entry_address, leaf}
use arm64os.PageTable.Labels.{Labels, IsTables}
use arm64os.PageTable.Frame.{leaf_empty, leaf_block, leaf_table, leaf_page}
use arm64os.PageTable.Run.{Chunk, Chunk-part, part_mono, offset_phys_lem}
use arm64os.PageTable.Loops.{IsPartEnd, pmd_end-IsPartEnd, pud_end-IsPartEnd}
use arm64os.Dump.Lines.{
  DumpLine, table, print_pgtable, dump_entries, is_section, walk_pte, visit_pmd, walk_pmd,
  visit_pud, walk_pud,
}
use arm64os.Dump.Entry.{leaf_invalid}
use arm64os.Dump.Shown.{Shown, Shown-right, Shows, print-Shown, table-Shows, dump_last}

-- What is shown for the entry that the walk finds.
Shown-found :
    (mask va e k d j : ℕ) (found : Option (ℕ × ℕ)) (lines : List DumpLine)
    → found ≡ some (e, k)
    → found ≡ some (d, j)
    → Shown mask (4 - k) va e lines
    → Shown mask (4 - j) va d lines
Shown-found mask va e k d j found lines x y shown =
    let same : some (e, k) ≡ some (d, j) = sym x ∙ y in
    let same_entry : e ≡ d = cc same in
    let same_level : k ≡ j = cc same in rw (same_entry, same_level) at shown

pub not_found : (found : Option (ℕ × ℕ)) (p : ℕ × ℕ) → found ≡ none → found ≡ some p → ⊥
not_found found p x y = let e : none ≡ some p = sym x ∙ y in cc e

page_end-IsPartEnd :
    (a hi : ℕ)
    → a < hi
    → hi ≤ 2 ^ 48
    → hi % 4096 ≡ 0
    → a % 4096 ≡ 0
    → IsPartEnd 0 a hi ((a + 4096) % 2 ^ 64)
page_end-IsPartEnd a hi h small aligned a_aligned = record {
  forward = omega arith;
  within = omega arith;
  one_entry = omega arith;
  goes_on = elim (Bool-cases ((a + 4096) % 2 ^ 64 == hi)) [
    | inl last ↦ inl ((==_iff ((a + 4096) % 2 ^ 64) hi).0 last)
    | inr more ↦ inr (ground (arith, more), omega arith, omega arith)
  ];
}

module _ (mask root : ℕ) (g : Labels) (s : PhysMemory) (tables : IsTables root g s) where
  -- The entry of a chunk is the entry of each of its addresses.
  pub same_entry :
      (l T lo hi va : ℕ)
      → Chunk l lo hi 0
      → lo ≤ va
      → va < hi
      → entry_address T l va ≡ entry_address T l lo
  same_entry l T lo hi va c a b = ap (λ (n : ℕ). T + n % 512 * 8) (Chunk-part l lo hi 0 va c a b)

  pte-Shows :
      (T lo hi : ℕ)
      → Chunk 0 lo hi 0
      → Returns
          (print_pgtable mask lo hi 4 (s.words (entry_address T 0 lo)))
          (Shows mask 0 T lo hi s)
  pte-Shows T lo hi c =
      let e = s.words (entry_address T 0 lo) in
      let (lines, runs, shown) = print-Shown mask 0 lo hi 4 e c in
      (
        lines,
        runs,
        record {
          all = λ va d k a b found.
              let here : s.words (entry_address T 0 va) ≡ e =
                ap s.words (same_entry 0 T lo hi va c a b) in
              elim (Bool-cases (e % 4 == 3)) [
                | inl valid ↦
                    let three : e % 4 ≡ 3 = (==_iff (e % 4) 3).0 valid in
                    Shown-found mask va e 0 d k (leaf s.words 1 T va) lines
                      (leaf_page s.words T va e here three) found
                      (shown va a b (λ z. omega (arith, z, three)))
                | inr invalid ↦ absurd (
                    not_found (leaf s.words 1 T va) (d, k)
                      (leaf_invalid s.words T va (rw here invalid)) found)
              ];
        },
      )

  walk_pte-Shows :
      (p lo hi : ℕ)
      → Chunk 1 lo hi 0
      → Returns (walk_pte mask 512 p lo hi s) (Shows mask 0 (target (s.words p)) lo hi s)
  unfolding walk_pte
  walk_pte-Shows p lo hi c =
      let C = target (s.words p) in
      let print = λ (ptep addr next : ℕ). print_pgtable mask addr next 4 (s.words ptep) in
      let page_end = λ (addr : ℕ). (addr + 4096) % 2 ^ 64 in
      let (lines, runs, shows) =
        table-Shows mask 0 C s page_end print (pte-Shows C) 512 lo hi
          (λ a below aligned. page_end-IsPartEnd a hi below c.virtual c.hi_aligned aligned) c
          (omega (arith, c.one_entry)) in
      (
        lines,
        ap (λ a. dump_entries page_end print 512 a lo hi) (offset_phys_lem 12 0 p lo s refl) ∙ runs,
        shows,
      )

  -- The lines of a table, behind the line of the entry that points to it.
  pub descend-Shows :
      (l T lo hi level : ℕ) (below : Result (List DumpLine))
      → Chunk (suc l) lo hi 0
      → s.words (entry_address T (suc l) lo) % 4 ≡ 3
      → Returns below (Shows mask l (target (s.words (entry_address T (suc l) lo))) lo hi s)
      → Returns (below >>= λ lines. ok (table level lo hi ∷ lines)) (Shows mask (suc l) T lo hi s)
  descend-Shows l T lo hi level below c is_table (lines, runs, shows) =
      let e = s.words (entry_address T (suc l) lo) in
      (
        table level lo hi ∷ lines,
        ap (λ r. r >>= λ ls. ok (table level lo hi ∷ ls)) runs,
        record {
          all = λ va d k a b found.
              let here : s.words (entry_address T (suc l) va) ≡ e =
                ap s.words (same_entry (suc l) T lo hi va c a b) in
              Shown-right mask (4 - k) va d (table level lo hi ∷ []) lines
                (shows.all va d k a b (sym (leaf_table s.words l T va e here is_table) ∙ found));
        },
      )

  visit_pmd-branch :
      (p lo hi : ℕ) (b : Bool)
      → (s.words p == 0 || is_section (s.words p)) ≡ b
      → visit_pmd mask 512 s p lo hi ≡ (
          if b
          then print_pgtable mask lo hi 3 (s.words p)
          else (walk_pte mask 512 p lo hi s >>= λ lines. ok (table 3 lo hi ∷ lines)))
  unfolding visit_pmd
  visit_pmd-branch p lo hi b h =
      ap
        (λ c.
          if c
          then print_pgtable mask lo hi 3 (s.words p)
          else (walk_pte mask 512 p lo hi s >>= λ lines. ok (table 3 lo hi ∷ lines)))
        h

  is_section_lem : (e : ℕ) → is_section e ≡ (e % 4 == 1)
  unfolding is_section
  is_section_lem e = ap (λ (n : ℕ). n == 1) (and_low_mask 2 e)

  pmd-Shows :
      (T lo hi : ℕ)
      → g.level T ≡ 2
      → Chunk 1 lo hi 0
      → Returns (visit_pmd mask 512 s (entry_address T 1 lo) lo hi) (Shows mask 1 T lo hi s)
  pmd-Shows T lo hi level c =
      let p = entry_address T 1 lo in
      let e = s.words p in
      let (printed, ran_print, shown) = print-Shown mask 1 lo hi 3 e c in
      let at_entry =
        λ (va : ℕ) (a : lo ≤ va) (b : va < hi). ap s.words (same_entry 1 T lo hi va c a b) in
      elim (tables.entries 1 T (part 1 lo % 512) level (omega arith)) [
        | inl empty ↦ (
          printed,
          visit_pmd-branch p lo hi true (rw empty) ∙ ran_print,
          record {
            all = λ va d k a b found. absurd (
                not_found (leaf s.words 2 T va) (d, k)
                  (leaf_empty s.words 1 T va (at_entry va a b ∙ empty)) found);
          },
        )
        | inr (inl (_, block)) ↦
            let section : (e == 0 || is_section e) ≡ true =
              rw (is_section_lem e) (ground (arith, block)) in
            (
              printed,
              visit_pmd-branch p lo hi true section ∙ ran_print,
              record {
                all = λ va d k a b found.
                    Shown-found mask va e 1 d k (leaf s.words 2 T va) printed
                      (leaf_block s.words 0 T va e (at_entry va a b) block) found
                      (shown va a b (λ z. omega (arith, z, block)));
              },
            )
        | inr (inr (is_table, _, _)) ↦
            let no_section : (e == 0 || is_section e) ≡ false =
              rw (is_section_lem e) (ground (arith, is_table)) in
            let (lines, runs, shows) =
              descend-Shows 0 T lo hi 3 (walk_pte mask 512 p lo hi s) c is_table
                (walk_pte-Shows p lo hi c) in
            (lines, visit_pmd-branch p lo hi false no_section ∙ runs, shows)
      ]

  walk_pmd-Shows :
      (p lo hi : ℕ)
      → g.level (target (s.words p)) ≡ 2
      → Chunk 2 lo hi 0
      → Returns (walk_pmd mask 512 p lo hi s) (Shows mask 1 (target (s.words p)) lo hi s)
  unfolding walk_pmd
  walk_pmd-Shows p lo hi level c =
      let C = target (s.words p) in
      let next_of = λ (a : ℕ). addr_end 21 a hi in
      let (lines, runs, shows) =
        table-Shows mask 1 C s next_of (visit_pmd mask 512 s)
          (λ a n chunk. pmd-Shows C a n level chunk) 512 lo hi
          (λ a below aligned. pmd_end-IsPartEnd a hi below c.virtual c.hi_aligned) c
          (omega (arith, c.one_entry)) in
      (
        lines,
        ap (λ a. dump_entries next_of (visit_pmd mask 512 s) 512 a lo hi)
              (offset_phys_lem 21 1 p lo s (omega arith))
            ∙ runs,
        shows,
      )

  -- An entry of the level above holds a table or nothing.
  visit_pud-branch :
      (p lo hi : ℕ) (b : Bool)
      → (s.words p == 0 || is_section (s.words p)) ≡ b
      → visit_pud mask 512 s p lo hi ≡ (
          if b
          then print_pgtable mask lo hi 2 (s.words p)
          else (walk_pmd mask 512 p lo hi s >>= λ lines. ok (table 2 lo hi ∷ lines)))
  unfolding visit_pud
  visit_pud-branch p lo hi b h =
      ap
        (λ c.
          if c
          then print_pgtable mask lo hi 2 (s.words p)
          else (walk_pmd mask 512 p lo hi s >>= λ lines. ok (table 2 lo hi ∷ lines)))
        h

  pud-Shows :
      (T lo hi : ℕ)
      → g.level T ≡ 3
      → Chunk 2 lo hi 0
      → Returns (visit_pud mask 512 s (entry_address T 2 lo) lo hi) (Shows mask 2 T lo hi s)
  pud-Shows T lo hi level c =
      let p = entry_address T 2 lo in
      let e = s.words p in
      let (printed, ran_print, _) = print-Shown mask 2 lo hi 2 e c in
      elim (tables.entries 2 T (part 2 lo % 512) level (omega arith)) [
        | inl empty ↦ (
          printed,
          visit_pud-branch p lo hi true (rw empty) ∙ ran_print,
          record {
            all = λ va d k a b found. absurd (
                not_found (leaf s.words 3 T va) (d, k)
                  (leaf_empty s.words 2 T va (ap s.words (same_entry 2 T lo hi va c a b) ∙ empty))
                  found);
          },
        )
        | inr (inl (none_here, _)) ↦ absurd (omega (arith, none_here))
        | inr (inr (is_table, child, _)) ↦
            let no_section : (e == 0 || is_section e) ≡ false =
              rw (is_section_lem e) (ground (arith, is_table)) in
            let (lines, runs, shows) =
              descend-Shows 1 T lo hi 2 (walk_pmd mask 512 p lo hi s) c is_table
                (walk_pmd-Shows p lo hi child c) in
            (lines, visit_pud-branch p lo hi false no_section ∙ runs, shows)
      ]

  -- For a range in one entry the loop of `walk_pud` has one round.
  pub walk_pud-Shows :
      (p lo hi : ℕ)
      → g.level (target (s.words p)) ≡ 3
      → Chunk 2 lo hi 0
      → Returns (walk_pud mask 512 p lo hi s) (Shows mask 2 (target (s.words p)) lo hi s)
  unfolding walk_pud
  walk_pud-Shows p lo hi level c =
      let C = target (s.words p) in
      let (lines, runs, shows) = pud-Shows C lo hi level c in
      let ends = pud_end-IsPartEnd lo hi c.some_address c.virtual c.hi_aligned in
      let one_round : addr_end 30 lo hi ≡ hi = elim ends.goes_on [
        | inl last ↦ last
        | inr (below, number, _) ↦ absurd (
            omega (
              arith,
              number,
              c.one_entry,
              part_mono 2 (addr_end 30 lo hi) (hi - 1) (omega (arith, below)),
            ))
      ] in
      let visit = visit_pud mask 512 s in
      (
        lines,
        ap (λ a. dump_entries (λ (x : ℕ). addr_end 30 lo hi) visit 512 a lo hi)
              (offset_phys_lem 30 2 p lo s (omega arith))
            ∙ dump_last (λ (x : ℕ). addr_end 30 lo hi) visit 511 (entry_address C 2 lo) lo hi lines
                (ap (λ n. visit (entry_address C 2 lo) lo n) one_round ∙ runs) one_round,
        shows,
      )
