-- ===== src/PageTable/Run.antt =====
-- Runs of the functions of mmu.c: they end, and map their range unless the pages are used up.
use arm64os.Common.{
  ℕ, zero, suc, ◌+◌, ◌-◌, ◌*◌, ◌/◌, ◌%◌, ◌^◌, ◌<◌, ◌≤◌, ◌≡◌, ◌≢◌, ◌⊎◌, inl, inr, some, arith, refl,
  ap, sym, ◌∙◌, Bool-cases, ◌==◌, ==_iff,
}
use arm64os.PageAlloc.{get_free_page}
use arm64os.PageTable.{PhysMemory, fill_entry, offset_phys}
use arm64os.PageTable.Walk.{part, target, entry_address, leaf}
use arm64os.PageTable.Labels.{Labels, IsTables, IsRoot}
use arm64os.PageTable.Frame.{leaf_block, leaf_table, part_split}
use arm64os.PageTable.Entry.{page_paddr_lem, table_index_lem}
use arm64os.PageTable.Mapped.{Mapped, Covers, Covers-kept, Covers-part, Mapped-then, Mapped-lift}
use arm64os.PageTable.Fill.{IsFull, Filled, fill_entry_cases, fill_entry-IsFull}

-- The range is for the table `T`, and none of it is mapped by a section.
pub record Before (root l T lo hi : ℕ) (g : Labels) (s : PhysMemory) : Type 0 where
  pub tables : IsTables root g s
  pub covers : Covers l T lo hi g
  pub no_section :
      (va : ℕ) → lo ≤ va → va < hi → (e k : ℕ) → leaf s.words (suc l) T va ≢ some (e, suc k)

pub record Run (root prot l T lo hi phys : ℕ) (s t : PhysMemory) : Type 0 where
  pub stays_full : IsFull s.pages → IsFull t.pages
  pub result :
      IsFull t.pages
      ⊎ ((g : Labels)
          → Before root l T lo hi g s
          → (g' : Labels) × Mapped root prot l T lo hi phys g g' s t)

pub IsFull-cases : (s : PhysMemory) → IsFull s.pages ⊎ (IsFull s.pages → ⊥)
IsFull-cases s = elim (Bool-cases ((get_free_page s.pages).0 == 0)) [
  | inl e ↦ inl ((==_iff (get_free_page s.pages).0 0).0 e)
  | inr e ↦ inr (λ z. ground (arith, z, e))
]

-- A range of page aligned addresses, to map to page aligned addresses, all in one entry with `l` levels
-- below it.
pub record Chunk (l lo hi phys : ℕ) : Type 0 where
  pub some_address : lo < hi
  pub lo_aligned : lo % 4096 ≡ 0
  pub hi_aligned : hi % 4096 ≡ 0
  pub phys_aligned : phys % 4096 ≡ 0
  pub virtual : hi ≤ 2 ^ 48
  pub physical : phys + (hi - lo) ≤ 2 ^ 48
  pub one_entry : part l (hi - 1) ≡ part l lo

pub part_mono : (l a b : ℕ) → a ≤ b → part l a ≤ part l b
part_mono zero a b h = omega arith
part_mono (suc l) a b h = omega (arith, part_mono l a b h)

pub Chunk-part :
    (l lo hi phys va : ℕ) → Chunk l lo hi phys → lo ≤ va → va < hi → part l va ≡ part l lo
Chunk-part l lo hi phys va c a b =
    omega (arith, part_mono l lo va a, part_mono l va (hi - 1) (omega (arith, b)), c.one_entry)

pub offset_phys_lem :
    (shift l p addr : ℕ) (s : PhysMemory)
    → addr / 2 ^ shift ≡ part l addr
    → offset_phys shift p addr s ≡ target (s.words p) + part l addr % 512 * 8
unfolding offset_phys
offset_phys_lem shift l p addr s e = rw (page_paddr_lem (s.words p), table_index_lem shift addr, e)

module _ (root prot : ℕ) (r : IsRoot root) where
  Before-after :
      (l T lo mid hi phys : ℕ) (g g' : Labels) (s s1 : PhysMemory)
      → lo ≤ mid
      → mid ≤ hi
      → Before root l T lo hi g s
      → Mapped root prot l T lo mid phys g g' s s1
      → Before root l T mid hi g' s1
  Before-after l T lo mid hi phys g g' s s1 h k b m = record {
    tables = m.tables;
    covers =
        Covers-kept l T mid hi g g' m.kept
          (Covers-part l T lo hi mid hi g h (omega arith) b.covers);
    no_section = λ va from below e n found.
        let from_lo : lo ≤ va = omega (arith, from) in
        b.no_section va from_lo below e n (
          sym (m.outside l T va b.covers.level (b.covers.region va from_lo below) (inr from))
          ∙ found);
  }

  pub Run-then :
      (l T lo mid hi phys : ℕ) (s s1 t : PhysMemory)
      → lo ≤ mid
      → mid ≤ hi
      → Run root prot l T lo mid phys s s1
      → Run root prot l T mid hi (phys + (mid - lo)) s1 t
      → Run root prot l T lo hi phys s t
  Run-then l T lo mid hi phys s s1 t h k a b = record {
    stays_full = λ full. b.stays_full (a.stays_full full);
    result = elim a.result [
      | inl full ↦ inl (b.stays_full full)
      | inr first ↦ elim b.result [
        | inl full ↦ inl full
        | inr second ↦ inr (λ g before.
            let (g1, m1) = first g record {
              tables = before.tables;
              covers = Covers-part l T lo hi lo mid g (omega arith) k before.covers;
              no_section = λ va from below. before.no_section va from (omega (arith, below));
            } in
            let (g2, m2) = second g1 (Before-after l T lo mid hi phys g g1 s s1 h k before m1) in
            (g2, Mapped-then root prot l T lo mid hi phys g g1 g2 s s1 t h k before.covers m1 m2))
      ]
    ];
  }

  module _ (l T lo hi phys : ℕ) (s t : PhysMemory) (chunk : Chunk (suc l) lo hi phys) where
    abbrev pub entryp : ℕ
    entryp = entry_address T (suc l) lo

    -- Work below the table that `fill_entry` leaves.
    below_entry :
        (g g1 : Labels)
        → Before root (suc l) T lo hi g s
        → Filled root prot l T (part (suc l) lo % 512) lo phys g g1 s (fill_entry entryp s)
        → ((g : Labels)
            → Before root l
                (target ((fill_entry entryp s).words entryp))
                lo
                hi
                g
                (fill_entry entryp s)
            → (g' : Labels) × Mapped root prot l
                (target ((fill_entry entryp s).words entryp))
                lo
                hi
                phys
                g
                g'
                (fill_entry entryp s)
                t)
        → (g' : Labels) × Mapped root prot (suc l) T lo hi phys g g' s t
    below_entry g g1 before f rest =
        let s1 = fill_entry (T + part (suc l) lo % 512 * 8) s in
        let i = part (suc l) lo % 512 in
        let e = s1.words (T + i * 8) in
        let C = target e in
        let region = λ (va : ℕ) (a : lo ≤ va) (b : va < hi).
          part_split (suc l) (g.number T) va (before.covers.region va a b) in
        let same =
          λ (va : ℕ) (a : lo ≤ va) (b : va < hi). Chunk-part (suc l) lo hi phys va chunk a b in
        let number = λ (va : ℕ) (a : lo ≤ va) (b : va < hi).
          let q : part (suc l) va ≡ g.number T * 512 + i =
            omega (arith, region va a b, same va a b, ap (λ (n : ℕ). n % 512) (same va a b)) in
          q in
        let ne : g.level T ≢ 0 = λ z. omega (arith, z, before.covers.level) in
        let m = f.mapped in
        let through = λ (va : ℕ) (a : lo ≤ va) (b : va < hi).
          let here : s1.words (entry_address T (suc l) va) ≡ e =
            ap (λ (n : ℕ). s1.words (T + n % 512 * 8)) (same va a b) in
          leaf_table s1.words l T va e here f.table in
        let (g2, m2) = rest g1 record {
          tables = m.tables;
          covers = record { level = f.level; region = λ va a b. number va a b ∙ sym f.number };
          no_section = λ va a b d k found. before.no_section va a b d k (
              sym (m.outside (suc l) T va before.covers.level (before.covers.region va a b) (inr a))
              ∙ through va a b
              ∙ found);
        } in
        let lifted : Mapped root prot (suc l) T lo hi phys g1 g2 s1 t =
          Mapped-lift root prot l T i lo hi phys g1 g2 s1 t
            (m.kept.level T ne ∙ before.covers.level) (omega arith)
            (λ va a b. number va a b ∙ ap (λ (n : ℕ). n * 512 + i) (sym (m.kept.number T ne)))
            f.table m2 in
        let still : phys + (lo - lo) ≡ phys = omega arith in
        (
          g2,
          Mapped-then root prot (suc l) T lo lo hi phys g g1 g2 s s1 t (omega arith)
              (omega (arith, chunk.some_address)) before.covers m (rw still lifted),
        )

    pub under-Run :
        Run root prot l
          (target ((fill_entry entryp s).words entryp))
          lo
          hi
          phys
          (fill_entry entryp s)
          t
        → Run root prot (suc l) T lo hi phys s t
    under-Run run =
        let i = part (suc l) lo % 512 in
        let s1 = fill_entry (T + i * 8) s in
        record {
          stays_full = λ full. run.stays_full (fill_entry-IsFull (T + i * 8) s full);
          result = elim (IsFull-cases s1) [
            | inl full ↦ inl (run.stays_full full)
            | inr spare ↦ elim run.result [
              | inl full ↦ inl full
              | inr rest ↦ inr (λ g before.
                  let no_section : s.words (T + i * 8) % 4 ≢ 1 = λ section.
                    before.no_section lo (omega arith) chunk.some_address (s.words (T + i * 8)) l
                      (leaf_block s.words l T lo (s.words (T + i * 8)) refl section) in
                  elim (fill_entry_cases root prot r g s before.tables l T i lo phys
                    before.covers.level (omega arith) no_section) [
                      | inl full ↦ absurd (spare full)
                      | inr (g1, f) ↦ below_entry g g1 before f rest
                    ])
            ]
          ];
        }

  -- One part after another, with the physical address of the second as the code computes it.
  pub Run-next :
      (l T lo mid hi phys phys' : ℕ) (s s1 t : PhysMemory)
      → lo < mid
      → mid < hi
      → phys' ≡ phys + (mid - lo)
      → Run root prot l T lo mid phys s s1
      → Run root prot l T mid hi phys' s1 t
      → Run root prot l T lo hi phys s t
  Run-next l T lo mid hi phys phys' s s1 t h k e a b =
      Run-then l T lo mid hi phys s s1 t (omega (arith, h)) (omega (arith, k)) a (rw e at b)
