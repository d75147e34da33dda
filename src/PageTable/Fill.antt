-- ===== src/PageTable/Fill.antt =====
-- `fill_entry`: an empty entry gets an empty table, which no walk sees.
use arm64os.Common.{
  ℕ, suc, ◌+◌, ◌*◌, ◌%◌, ◌<◌, ◌≡◌, ◌≢◌, ◌⊎◌, inl, inr, none, arith, refl, ap, sym, ◌∙◌, Bool-cases,
  ◌==◌, ==_iff, bit_or, update,
}
use arm64os.PageAlloc.{PageAlloc, nr_pages, page_address, get_free_page}
use arm64os.PageAlloc.Alloc.{get_free_page_cases}
use arm64os.PageTable.{PhysMemory, fill_entry, set_entry, early_pgtable_alloc}
use arm64os.PageTable.Walk.{part, target, entry_address, leaf}
use arm64os.PageTable.Labels.{Labels, EntryFits, IsTables, IsRoot, table-aligned}
use arm64os.PageTable.Frame.{leaf_kept, leaf_empty, leaf_table}
use arm64os.PageTable.Entry.{or-prot}
use arm64os.PageTable.Mapped.{Mapped}
use arm64os.PageTable.Write.{
  set_entry_at, set_entry_off, set_entry-pages, set_entry-IsTables, written_cases, IsKept-refl,
}
use arm64os.PageTable.Fresh.{
  cleared, labelled, label-IsKept, cleared_off, cleared_on, cleared-IsTables, leaf-cleared,
  other_table,
}

-- No page is left to allocate.
abbrev pub IsFull : PageAlloc → Type 0
IsFull pages = (get_free_page pages).0 ≡ 0

pub fill_entry_present : (p : ℕ) (s : PhysMemory) → s.words p ≢ 0 → fill_entry p s ≡ s
unfolding fill_entry
fill_entry_present p s ne = ground arith

pub fill_entry_empty :
    (p : ℕ) (s : PhysMemory)
    → s.words p ≡ 0
    → fill_entry p s ≡ set_entry p (bit_or (early_pgtable_alloc s).0 3) (early_pgtable_alloc s).1
unfolding fill_entry
fill_entry_empty p s e = rw e

pub alloc_pages : (s : PhysMemory) → (early_pgtable_alloc s).1.pages ≡ (get_free_page s.pages).1
unfolding early_pgtable_alloc
alloc_pages s = refl

-- Once the pages are used up they stay so.
pub fill_entry-IsFull : (p : ℕ) (s : PhysMemory) → IsFull s.pages → IsFull (fill_entry p s).pages
fill_entry-IsFull p s full = elim (Bool-cases (s.words p == 0)) [
  | inl e ↦ rw (fill_entry_empty p s ((==_iff (s.words p) 0).0 e)) (
      rw
        (
          set_entry-pages p (bit_or (early_pgtable_alloc s).0 3) (early_pgtable_alloc s).1,
          alloc_pages s,
        )
        (elim (get_free_page_cases s.pages) [
          | inl (i, a) ↦ absurd (omega (arith, full, ap (λ (q : ℕ × PageAlloc). q.0) a.returns))
          | inr (used, same) ↦ rw (ap (λ (q : ℕ × PageAlloc). q.1) same) full
        ]))
  | inr e ↦ rw (fill_entry_present p s (λ z. ground (arith, z, e))) full
]

-- After it, the entry points to a table for its part.
pub record Filled (root prot l T i lo phys : ℕ) (g g' : Labels) (s t : PhysMemory) : Type 0 where
  pub mapped : Mapped root prot (suc l) T lo lo phys g g' s t
  pub table : t.words (T + i * 8) % 4 ≡ 3
  pub level : g'.level (target (t.words (T + i * 8))) ≡ suc l
  pub number : g'.number (target (t.words (T + i * 8))) ≡ g.number T * 512 + i

module _ (root prot : ℕ) (r : IsRoot root) (g : Labels) (s : PhysMemory)
    (tables : IsTables root g s) (l T i lo phys : ℕ) (level : g.level T ≡ suc (suc l))
    (small : i < 512) where
  -- An entry that points to a table stays.
  pub present-Filled :
      s.words (T + i * 8) % 4 ≡ 3
      → g.level (target (s.words (T + i * 8))) ≡ suc l
      → g.number (target (s.words (T + i * 8))) ≡ g.number T * 512 + i
      → Filled root prot l T i lo phys g g s (fill_entry (T + i * 8) s)
  present-Filled table child number =
      rw (fill_entry_present (T + i * 8) s (λ z. omega (arith, z, table))) (record {
        mapped = record {
          tables = tables;
          kept = IsKept-refl g;
          above = λ k x m h up below. refl;
          inside = λ va a b. absurd (omega (arith, a, b));
          outside = λ k x va h region out. refl;
        };
        table = table;
        level = child;
        number = number;
      })

  module _ (j : ℕ) (in_map : j < nr_pages) (free : s.pages.mem_map j ≡ 0)
      (empty : s.words (T + i * 8) ≡ 0) where
    child : ℕ
    child = page_address j

    new : Labels
    unfolding child
    new = labelled child (suc l) (g.number T * 512 + i) g

    filled : PhysMemory
    unfolding child
    filled = set_entry (T + i * 8) (child + 3) (cleared j s)

    new_level : new.level T ≡ suc (suc l)
    unfolding new child
    new_level =
        (label-IsKept root r g s tables j in_map free l (g.number T * 512 + i)).level T
          (λ z. omega (arith, z, level))
        ∙ level

    new_number : new.number T ≡ g.number T
    unfolding new child
    new_number =
        (label-IsKept root r g s tables j in_map free l (g.number T * 512 + i)).number T
          (λ z. omega (arith, z, level))

    target-child : target (child + 3) ≡ child
    unfolding child
    target-child = omega (arith, in_map)

    child_level : new.level (target (child + 3)) ≡ suc l
    unfolding new
    child_level = rw target-child (ground arith)

    child_number : new.number (target (child + 3)) ≡ g.number T * 512 + i
    unfolding new
    child_number = rw target-child (ground arith)

    child_fits : EntryFits new (suc l) T i (child + 3)
    child_fits = inr (
        inr (
          (unfold child in omega (arith, in_map)),
          child_level,
          child_number ∙ ap (λ (q : ℕ). q * 512 + i) (sym new_number),
        ))

    mid-IsTables : IsTables root new (cleared j s)
    unfolding new child
    mid-IsTables = cleared-IsTables root r g s tables j in_map free l (g.number T * 512 + i)

    -- The walk into the new table finds nothing.
    leaf-child : (va : ℕ) → leaf filled.words (suc l) child va ≡ none
    unfolding filled child
    leaf-child va =
        let index = part l va % 512 in
        let aligned =
          table-aligned root T s.pages r (tables.placed T (λ z. omega (arith, z, level))) in
        let off : child + index * 8 ≢ T + i * 8 = λ e.
          other_table root r g s tables j in_map free l (g.number T * 512 + i) T (suc l) level
            (omega (arith, e, aligned)) in
        leaf_empty filled.words l child va (
          set_entry_off (T + i * 8) (child + 3) (child + index * 8) (cleared j s) off
          ∙ cleared_on root r g s tables j in_map free l (g.number T * 512 + i) index (omega arith))

    filled_at : filled.words (T + i * 8) ≡ child + 3
    unfolding filled
    filled_at = set_entry_at (T + i * 8) (child + 3) (cleared j s)

    filled_cases :
        (k y m : ℕ)
        → new.level y ≡ suc k
        → m < 512
        → ((k ≡ suc l) × (y ≡ T) × (m ≡ i))
          ⊎ (filled.words (y + m * 8) ≡ (cleared j s).words (y + m * 8))
    unfolding filled
    filled_cases =
        written_cases root r new (cleared j s) mid-IsTables (suc l) T i (child + 3) new_level small

    leaf-filled :
        (k x va : ℕ)
        → g.level x ≡ suc k
        → part (suc k) va ≡ g.number x
        → leaf filled.words (suc k) x va ≡ leaf s.words (suc k) x va
    leaf-filled k x va h region =
        let n = g.number T * 512 + i in
        let kept = label-IsKept root r g s tables j in_map free l n in
        let ne : g.level x ≢ 0 = λ z. omega (arith, z, h) in
        leaf_kept root new (cleared j s) mid-IsTables filled.words va
          (λ m y q hy below. elim (filled_cases m y q hy below) [
            | inl (same_level, same, index) ↦ inr (λ at_part.
                let here : part (suc l) va % 512 ≡ i =
                  omega (arith, rw (same_level, same, index) at at_part, small) in
                let into : filled.words (entry_address T (suc l) va) ≡ child + 3 =
                  rw here filled_at in
                let was : (cleared j s).words (entry_address T (suc l) va) ≡ 0 = rw here (
                  cleared_off root r g s tables j in_map free l n (suc l) T i level small
                  ∙ empty) in
                rw (same_level, same)
                  (leaf_table filled.words l T va (child + 3) into
                      (unfold child in omega (arith, in_map))
                    ∙ rw target-child (leaf-child va)
                    ∙ sym (leaf_empty (cleared j s).words (suc l) T va was)))
            | inr off ↦ inl off
          ])
          k x (unfold new in unfold child in kept.level x ne ∙ h)
          (unfold new in unfold child in region ∙ sym (kept.number x ne))
        ∙ leaf-cleared root r g s tables j in_map free l n k x va h region

    filled-Filled : Filled root prot l T i lo phys g new s filled
    filled-Filled =
        let n = g.number T * 512 + i in
        record {
          mapped = record {
            tables =
                unfold filled in
                set_entry-IsTables root r new (cleared j s) mid-IsTables (suc l) T i (child + 3)
                  new_level small child_fits;
            kept = unfold new in unfold child in label-IsKept root r g s tables j in_map free l n;
            above = λ k x m h up below.
                let kept = label-IsKept root r g s tables j in_map free l n in
                let ne : g.level x ≢ 0 = λ z. omega (arith, z, h) in
                elim (filled_cases k x m (unfold new in unfold child in kept.level x ne ∙ h)
                  below) [
                    | inl (same_level, _, _) ↦ absurd (omega (arith, same_level, up))
                    | inr off ↦ off ∙ cleared_off root r g s tables j in_map free l n k x m h below
                  ];
            inside = λ va a b. absurd (omega (arith, a, b));
            outside = λ k x va h region out. leaf-filled k x va h region;
          };
          table = rw filled_at (unfold child in omega (arith, in_map));
          level = rw filled_at child_level;
          number = rw filled_at child_number;
        }

-- What an entry may be before `fill_entry`: not a section.
module _ (root prot : ℕ) (r : IsRoot root) (g : Labels) (s : PhysMemory)
    (tables : IsTables root g s) (l T i lo phys : ℕ) (level : g.level T ≡ suc (suc l))
    (small : i < 512) (no_section : s.words (T + i * 8) % 4 ≢ 1) where
  fresh-Filled :
      (j : ℕ)
      → j < nr_pages
      → s.pages.mem_map j ≡ 0
      → get_free_page s.pages
        ≡ (page_address j, record (s.pages) { mem_map = update s.pages.mem_map j 1 })
      → s.words (T + i * 8) ≡ 0
      → (g' : Labels) × Filled root prot l T i lo phys g g' s (fill_entry (T + i * 8) s)
  unfolding early_pgtable_alloc
  fresh-Filled j below free got empty =
      let sum : bit_or (page_address j) 3 ≡ page_address j + 3 =
        or-prot (page_address j) 3 (omega arith) (omega arith) (omega arith) in
      (
        new root prot r g s tables l T i lo phys level small j below free empty,
        rw (fill_entry_empty (T + i * 8) s empty, got, sum)
            (unfold filled in
              unfold child in
              filled-Filled root prot r g s tables l T i lo phys level small j below free empty),
      )

  -- The entry points to a table then, or all pages are used.
  pub fill_entry_cases :
      IsFull (fill_entry (T + i * 8) s).pages
      ⊎ ((g' : Labels) × Filled root prot l T i lo phys g g' s (fill_entry (T + i * 8) s))
  fill_entry_cases = elim (tables.entries (suc l) T i level small) [
    | inr (inl (_, section)) ↦ absurd (no_section section)
    | inr (inr (table, child, number)) ↦
        inr (g, present-Filled root prot r g s tables l T i lo phys level small table child number)
    | inl empty ↦ elim (get_free_page_cases s.pages) [
      | inl (j, a) ↦ inr (fresh-Filled j a.is_first.below a.is_first.free a.returns empty)
      | inr (used, same) ↦
          inl (fill_entry-IsFull (T + i * 8) s (ap (λ (q : ℕ × PageAlloc). q.0) same))
    ]
  ]
