-- ===== src/PageTable/Loops.antt =====
-- The loops of mmu.c.
use arm64os.Common.{
  ℕ, zero, suc, ◌+◌, ◌-◌, ◌*◌, ◌/◌, ◌%◌, ◌^◌, ◌<◌, ◌≤◌, ◌≡◌, ◌⊎◌, inl, inr, Option, some, arith,
  refl, ◌∙◌, Bool-cases, ◌==◌, ==_iff, false, bit_or,
}
use arm64os.Common.Bits.{and_low_mask}
use arm64os.PageTable.{PhysMemory, set_entry, set_ptes, each_entry, addr_end}
use arm64os.PageTable.Walk.{part, entry_address}
use arm64os.PageTable.Labels.{IsRoot}
use arm64os.PageTable.Frame.{part_split}
use arm64os.PageTable.Entry.{IsPageProt}
use arm64os.PageTable.Write.{page-Mapped, set_entry-pages}
use arm64os.PageTable.Run.{Run, Run-next, Chunk, part_mono}

-- The run ends in a state that satisfies `P`.
abbrev pub Ends : Option PhysMemory → (PhysMemory → Type 0) → Type 0
Ends result P = (t : PhysMemory) × (result ≡ some t) × P t

-- Where the part of a range from `a` on at one entry ends.
pub record IsPartEnd (l a hi next : ℕ) : Type 0 where
  pub forward : a < next
  pub within : next ≤ hi
  pub one_entry : part l (next - 1) ≡ part l a
  pub goes_on : (next ≡ hi) ⊎ ((next < hi) × (part l next ≡ suc (part l a)) × (next % 4096 ≡ 0))

pub pmd_end-IsPartEnd :
    (a hi : ℕ) → a < hi → hi ≤ 2 ^ 48 → hi % 4096 ≡ 0 → IsPartEnd 1 a hi (addr_end 21 a hi)
unfolding addr_end
pmd_end-IsPartEnd a hi h small aligned =
    let m = and_low_mask 21 ((a + 2 ^ 21) % 2 ^ 64) in
    record {
      forward = ground (arith, m);
      within = ground (arith, m);
      one_entry = ground (arith, m);
      goes_on = ground (arith, m);
    }

pub pud_end-IsPartEnd :
    (a hi : ℕ) → a < hi → hi ≤ 2 ^ 48 → hi % 4096 ≡ 0 → IsPartEnd 2 a hi (addr_end 30 a hi)
unfolding addr_end
pud_end-IsPartEnd a hi h small aligned =
    let m = and_low_mask 30 ((a + 2 ^ 30) % 2 ^ 64) in
    record {
      forward = ground (arith, m);
      within = ground (arith, m);
      one_entry = ground (arith, m);
      goes_on = ground (arith, m);
    }

pub pgd_end-IsPartEnd :
    (a hi : ℕ) → a < hi → hi ≤ 2 ^ 48 → hi % 4096 ≡ 0 → IsPartEnd 3 a hi (addr_end 39 a hi)
unfolding addr_end
pgd_end-IsPartEnd a hi h small aligned =
    let m = and_low_mask 39 ((a + 2 ^ 39) % 2 ^ 64) in
    record {
      forward = ground (arith, m);
      within = ground (arith, m);
      one_entry = ground (arith, m);
      goes_on = ground (arith, m);
    }

-- The next entry of a table.
pub next_entry :
    (l T a next hi : ℕ)
    → part l next ≡ suc (part l a)
    → next < hi
    → a < hi
    → part (suc l) (hi - 1) ≡ part (suc l) a
    → entry_address T l a + 8 ≡ entry_address T l next
next_entry l T a next hi e h k one =
    omega (arith, e, one, part_mono l next (hi - 1) (omega (arith, h)))

set_ptes_last :
    (fuel p lo hi phys prot : ℕ) (s : PhysMemory)
    → (lo + 4096) % 2 ^ 64 ≡ hi
    → set_ptes (suc fuel) p lo hi phys prot s
      ≡ some (set_entry p (bit_or (phys / 2 ^ 12 * 2 ^ 12) prot) s)
unfolding set_ptes
set_ptes_last fuel p lo hi phys prot s e = rw (e, (==_iff hi hi).1 refl)

set_ptes_more :
    (fuel p p' lo lo' hi phys phys' prot : ℕ) (s : PhysMemory)
    → (lo + 4096) % 2 ^ 64 ≡ lo'
    → (phys + 4096) % 2 ^ 64 ≡ phys'
    → p + 8 ≡ p'
    → (lo' == hi) ≡ false
    → set_ptes (suc fuel) p lo hi phys prot s
      ≡ set_ptes fuel p' lo' hi phys' prot (set_entry p (bit_or (phys / 2 ^ 12 * 2 ^ 12) prot) s)
unfolding set_ptes
set_ptes_more fuel p p' lo lo' hi phys phys' prot s e f g more = rw (e, f, g, more)

pub Chunk-rest :
    (l lo mid hi phys phys' : ℕ)
    → lo < mid
    → mid < hi
    → mid % 4096 ≡ 0
    → phys' ≡ phys + (mid - lo)
    → Chunk (suc l) lo hi phys
    → Chunk (suc l) mid hi phys'
Chunk-rest l lo mid hi phys phys' h k aligned e c = record {
  some_address = k;
  lo_aligned = aligned;
  hi_aligned = c.hi_aligned;
  phys_aligned = omega (arith, e, h, c.phys_aligned, aligned, c.lo_aligned);
  virtual = c.virtual;
  physical = omega (arith, c.physical, e, h, k);
  one_entry = omega (
    arith,
    c.one_entry,
    part_mono (suc l) lo mid (omega (arith, h)),
    part_mono (suc l) mid (hi - 1) (omega (arith, k)),
  );
}

module _ (root prot : ℕ) (r : IsRoot root) where
  -- One entry of the last level is written.
  page-Run :
      (p : IsPageProt prot) (T lo phys : ℕ) (s : PhysMemory)
      → lo % 4096 ≡ 0
      → phys % 4096 ≡ 0
      → phys < 2 ^ 48
      → Run root prot 0 T lo
          (lo + 4096)
          phys
          s
          (set_entry (entry_address T 0 lo) (bit_or (phys / 2 ^ 12 * 2 ^ 12) prot) s)
  page-Run p T lo phys s lo_aligned phys_aligned small =
      let e = bit_or (phys / 2 ^ 12 * 2 ^ 12) prot in
      record {
        stays_full = λ full. rw (set_entry-pages (entry_address T 0 lo) e s) full;
        result = inr (λ g before. (
          g,
          page-Mapped root prot r p g s before.tables T lo phys small (part 0 lo % 512) e
              before.covers.level (omega arith)
              (part_split 0 (g.number T) lo (before.covers.region lo (omega arith) (omega arith)))
              lo_aligned phys_aligned refl,
        ));
      }

  pub set_ptes-Run :
      (p : IsPageProt prot) (fuel T lo hi phys : ℕ) (s : PhysMemory)
      → Chunk 1 lo hi phys
      → part 0 (hi - 1) < part 0 lo + fuel
      → Ends
          (set_ptes fuel (entry_address T 0 lo) lo hi phys prot s)
          (Run root prot 0 T lo hi phys s)
  set_ptes-Run p zero T lo hi phys s c enough =
      absurd (omega (arith, enough, part_mono 0 lo (hi - 1) (omega (arith, c.some_address))))
  set_ptes-Run p (suc fuel) T lo hi phys s c enough =
      let first =
        page-Run p T lo phys s c.lo_aligned c.phys_aligned
          (omega (arith, c.physical, c.some_address)) in
      let s1 = set_entry (entry_address T 0 lo) (bit_or (phys / 2 ^ 12 * 2 ^ 12) prot) s in
      let wraps : (lo + 4096) % 2 ^ 64 ≡ lo + 4096 =
        omega (arith, c.some_address, c.virtual, c.lo_aligned, c.hi_aligned) in
      elim (Bool-cases (lo + 4096 == hi)) [
        | inl last ↦
            let e = (==_iff (lo + 4096) hi).0 last in
            (
              s1,
              set_ptes_last fuel (entry_address T 0 lo) lo hi phys prot s (wraps ∙ e),
              rw e at first,
            )
        | inr more ↦
            let below : lo + 4096 < hi =
              ground (arith, more, c.some_address, c.lo_aligned, c.hi_aligned) in
            let step : lo < lo + 4096 = omega arith in
            let moved : phys + 4096 ≡ phys + (lo + 4096 - lo) = omega arith in
            let next : entry_address T 0 lo + 8 ≡ entry_address T 0 (lo + 4096) =
              next_entry 0 T lo (lo + 4096) hi (omega arith) below c.some_address c.one_entry in
            let (t, runs, rest) =
              set_ptes-Run p fuel T (lo + 4096) hi (phys + 4096) s1
                (Chunk-rest 0 lo (lo + 4096) hi phys (phys + 4096) step below
                  (omega (arith, c.lo_aligned)) moved c)
                (omega (arith, enough)) in
            (
              t,
              set_ptes_more fuel (entry_address T 0 lo) (entry_address T 0 (lo + 4096)) lo
                    (lo + 4096) hi phys (phys + 4096) prot s wraps
                    (omega (arith, below, c.physical)) next more
                  ∙ runs,
              Run-next root prot r 0 T lo (lo + 4096) hi phys (phys + 4096) s s1 t step below moved
                  first rest,
            )
      ]

each_entry_last :
    (shift fuel p lo hi phys : ℕ) (s s1 : PhysMemory)
    (map_one : (entryp addr next phys : ℕ) → PhysMemory → Option PhysMemory)
    → map_one p lo (addr_end shift lo hi) phys s ≡ some s1
    → addr_end shift lo hi ≡ hi
    → each_entry shift map_one (suc fuel) p lo hi phys s ≡ some s1
unfolding each_entry
each_entry_last shift fuel p lo hi phys s s1 map_one e f =
    rw (each_entry, e, f, (==_iff hi hi).1 refl)

each_entry_more :
    (shift fuel p p' lo lo' hi phys phys' : ℕ) (s s1 : PhysMemory)
    (map_one : (entryp addr next phys : ℕ) → PhysMemory → Option PhysMemory)
    → map_one p lo (addr_end shift lo hi) phys s ≡ some s1
    → addr_end shift lo hi ≡ lo'
    → (phys + (lo' + 2 ^ 64 - lo)) % 2 ^ 64 ≡ phys'
    → p + 8 ≡ p'
    → (lo' == hi) ≡ false
    → each_entry shift map_one (suc fuel) p lo hi phys s
      ≡ each_entry shift map_one fuel p' lo' hi phys' s1
unfolding each_entry
each_entry_more shift fuel p p' lo lo' hi phys phys' s s1 map_one e f g h more =
    rw (each_entry, e, f, g, h, more)

-- The loop over the entries of a table with `l` levels below its entries, from a loop body that maps
-- the part of the range at one entry.
module _ (root prot : ℕ) (r : IsRoot root) (l shift : ℕ)
    (map_one : (entryp addr next phys : ℕ) → PhysMemory → Option PhysMemory)
    (ends : (a hi : ℕ)
      → a < hi
      → hi ≤ 2 ^ 48
      → hi % 4096 ≡ 0
      → IsPartEnd l a hi (addr_end shift a hi))
    (one : (T lo hi phys : ℕ) (s : PhysMemory)
      → Chunk l lo hi phys
      → Ends (map_one (entry_address T l lo) lo hi phys s) (Run root prot l T lo hi phys s)) where
  Chunk-first :
      (lo next hi phys : ℕ)
      → IsPartEnd l lo hi next
      → Chunk (suc l) lo hi phys
      → Chunk l lo next phys
  Chunk-first lo next hi phys e c = record {
    some_address = e.forward;
    lo_aligned = c.lo_aligned;
    hi_aligned = elim e.goes_on [ inl last ↦ rw last c.hi_aligned | inr (_, _, aligned) ↦ aligned ];
    phys_aligned = c.phys_aligned;
    virtual = omega (arith, e.within, c.virtual);
    physical = omega (arith, e.within, c.physical);
    one_entry = e.one_entry;
  }

  pub each_entry-Run :
      (fuel T lo hi phys : ℕ) (s : PhysMemory)
      → Chunk (suc l) lo hi phys
      → part l (hi - 1) < part l lo + fuel
      → Ends
          (each_entry shift map_one fuel (entry_address T l lo) lo hi phys s)
          (Run root prot l T lo hi phys s)
  each_entry-Run zero T lo hi phys s c enough =
      absurd (omega (arith, enough, part_mono l lo (hi - 1) (omega (arith, c.some_address))))
  each_entry-Run (suc fuel) T lo hi phys s c enough =
      let next = addr_end shift lo hi in
      let e = ends lo hi c.some_address c.virtual c.hi_aligned in
      let (s1, ran, first) = one T lo next phys s (Chunk-first lo next hi phys e c) in
      elim e.goes_on [
        | inl last ↦ (
          s1,
          each_entry_last shift fuel (entry_address T l lo) lo hi phys s s1 map_one ran last,
          rw last at first,
        )
        | inr (below, number, aligned) ↦
            let phys' = phys + (next - lo) in
            let wraps : (phys + (next + 2 ^ 64 - lo)) % 2 ^ 64 ≡ phys' =
              omega (arith, e.forward, below, c.physical) in
            let p' = next_entry l T lo next hi number below c.some_address c.one_entry in
            let other : (next == hi) ≡ false = ground (arith, below) in
            let (t, runs, rest) =
              each_entry-Run fuel T next hi phys' s1
                (Chunk-rest l lo next hi phys phys' e.forward below aligned refl c)
                (omega (arith, enough, number)) in
            (
              t,
              each_entry_more shift fuel (entry_address T l lo) (entry_address T l next) lo next hi
                    phys phys' s s1 map_one ran refl wraps p' other
                  ∙ runs,
              Run-next root prot r l T lo next hi phys phys' s s1 t e.forward below refl first rest,
            )
      ]

  -- All entries of a table are within 512 rounds.
  pub table-Run :
      (T lo hi phys : ℕ) (s : PhysMemory)
      → Chunk (suc l) lo hi phys
      → Ends
          (each_entry shift map_one 512 (entry_address T l lo) lo hi phys s)
          (Run root prot l T lo hi phys s)
  table-Run T lo hi phys s c = each_entry-Run 512 T lo hi phys s c (omega (arith, c.one_entry))
