-- ===== src/Dump/Shown.antt =====
-- The dump shows what is mapped.
use arm64os.Common.{
  ℕ, zero, suc, ◌+◌, ◌-◌, ◌/◌, ◌%◌, ◌^◌, ◌<◌, ◌≤◌, ◌≡◌, ◌≢◌, ◌⊎◌, inl, inr, some, arith, refl,
  Bool-cases, ◌==◌, ==_iff, true, false, bit_and, ltb, lt→ltb, Result, ok, Returns, List, [], ◌∷◌,
  ◌++◌, if◌then◌else◌,
}
use arm64os.PageTable.{PhysMemory}
use arm64os.PageTable.Walk.{part, entry_address, leaf}
use arm64os.PageTable.Run.{Chunk, part_mono}
use arm64os.PageTable.Loops.{IsPartEnd, next_entry}
use arm64os.Dump.Lines.{
  DumpLine, range, marker, pte_bits, dump_prot, scale, print_pgtable, dump_entries,
}
use arm64os.Dump.Unit.{scale-IsScaled}

-- The line stands in the list.
abbrev pub Has : DumpLine → List DumpLine → Type 0
Has x [] = ⊥
Has x (y ∷ ys) = (x ≡ y) ⊎ Has x ys

pub Has-left : (x : DumpLine) (xs ys : List DumpLine) → Has x xs → Has x (xs ++ ys)
Has-left x [] ys h = absurd h
Has-left x (z ∷ xs) ys (inl e) = inl e
Has-left x (z ∷ xs) ys (inr h) = inr (Has-left x xs ys h)

pub Has-right : (x : DumpLine) (xs ys : List DumpLine) → Has x ys → Has x (xs ++ ys)
Has-right x [] ys h = h
Has-right x (z ∷ xs) ys h = inr (Has-right x xs ys h)

-- A line of a range that holds `va`, with the attributes of the entry `e`.
pub record Shown (mask level va e : ℕ) (lines : List DumpLine) : Type 0 where
  pub start : ℕ
  pub end_addr : ℕ
  pub delta : ℕ
  pub unit : ℕ
  pub from : start ≤ va
  pub below : va < end_addr
  pub line : Has (range level start end_addr delta unit (dump_prot (bit_and e mask) pte_bits)) lines

pub Shown-left :
    (mask level va e : ℕ) (xs ys : List DumpLine)
    → Shown mask level va e xs
    → Shown mask level va e (xs ++ ys)
Shown-left mask level va e xs ys h = record {
  start = h.start;
  end_addr = h.end_addr;
  delta = h.delta;
  unit = h.unit;
  from = h.from;
  below = h.below;
  line = Has-left _ xs ys h.line;
}

pub Shown-right :
    (mask level va e : ℕ) (xs ys : List DumpLine)
    → Shown mask level va e ys
    → Shown mask level va e (xs ++ ys)
Shown-right mask level va e xs ys h = record {
  start = h.start;
  end_addr = h.end_addr;
  delta = h.delta;
  unit = h.unit;
  from = h.from;
  below = h.below;
  line = Has-right _ xs ys h.line;
}

-- Each address from `lo` to `hi` that the table `T` maps is shown.
pub record Shows (mask l T lo hi : ℕ) (s : PhysMemory) (lines : List DumpLine) : Type 0 where
  pub all :
      (va e k : ℕ)
      → lo ≤ va
      → va < hi
      → leaf s.words (suc l) T va ≡ some (e, k)
      → Shown mask (4 - k) va e lines

print_empty :
    (mask start end_addr level : ℕ)
    → (lines : List DumpLine) × (print_pgtable mask start end_addr level 0 ≡ ok lines)
unfolding print_pgtable
print_empty mask start end_addr level = (_, refl)

print_full :
    (mask start end_addr level val delta unit : ℕ)
    → (val == 0) ≡ false
    → scale 64 ((end_addr + 2 ^ 64 - start) % 2 ^ 64 / 2 ^ 10) 0 ≡ some (delta, unit)
    → ltb unit 5 ≡ true
    → print_pgtable mask start end_addr level val
      ≡ ok (
          (if start == 0 then marker ∷ [] else [])
          ++ range level start end_addr delta unit (dump_prot (bit_and val mask) pte_bits) ∷ [])
unfolding print_pgtable
print_full mask start end_addr level val delta unit ne e small = rw (ne, e, small)

-- The line of one entry.
pub print-Shown :
    (mask l lo hi level val : ℕ)
    → Chunk l lo hi 0
    → Returns
        (print_pgtable mask lo hi level val)
        (λ lines. (va : ℕ) → lo ≤ va → va < hi → val ≢ 0 → Shown mask level va val lines)
print-Shown mask l lo hi level val c = elim (Bool-cases (val == 0)) [
  | inl e ↦
      let zero_val : val ≡ 0 = (==_iff val 0).0 e in
      let (lines, runs) = print_empty mask lo hi level in
      (lines, rw zero_val runs, λ va a b ne. absurd (ne zero_val))
  | inr ne ↦
      let size = (hi + 2 ^ 64 - lo) % 2 ^ 64 / 2 ^ 10 in
      let (d, u, runs, s, bound) =
        scale-IsScaled 64 size 0 4
          (omega (arith, c.some_address, c.lo_aligned, c.hi_aligned, c.virtual))
          (omega (arith, c.some_address, c.virtual)) (omega arith) in
      let front = if lo == 0 then marker ∷ [] else [] in
      let last = range level lo hi d u (dump_prot (bit_and val mask) pte_bits) in
      (
        front ++ last ∷ [],
        print_full mask lo hi level val d u ne runs (lt→ltb u 5 (omega (arith, bound))),
        λ va a b _. record {
          start = lo;
          end_addr = hi;
          delta = d;
          unit = u;
          from = a;
          below = b;
          line = Has-right last front (last ∷ []) (inl refl);
        },
      )
]

pub dump_last :
    (next_of : ℕ → ℕ) (visit : (entryp addr next : ℕ) → Result (List DumpLine)) (fuel p lo hi : ℕ)
    (lines : List DumpLine)
    → visit p lo (next_of lo) ≡ ok lines
    → next_of lo ≡ hi
    → dump_entries next_of visit (suc fuel) p lo hi ≡ ok lines
unfolding dump_entries
dump_last next_of visit fuel p lo hi lines e f = rw (dump_entries, e, f, (==_iff hi hi).1 refl)

dump_more :
    (next_of : ℕ → ℕ) (visit : (entryp addr next : ℕ) → Result (List DumpLine))
    (fuel p p' lo lo' hi : ℕ) (lines more : List DumpLine)
    → visit p lo (next_of lo) ≡ ok lines
    → next_of lo ≡ lo'
    → p + 8 ≡ p'
    → (lo' == hi) ≡ false
    → dump_entries next_of visit fuel p' lo' hi ≡ ok more
    → dump_entries next_of visit (suc fuel) p lo hi ≡ ok (lines ++ more)
unfolding dump_entries
dump_more next_of visit fuel p p' lo lo' hi lines more e f g other rest =
    rw (dump_entries, e, f, g, other, rest)

-- The walk over a table, from what is done at an entry.
module _ (mask l T : ℕ) (s : PhysMemory) (next_of : ℕ → ℕ)
    (visit : (entryp addr next : ℕ) → Result (List DumpLine))
    (one : (lo hi : ℕ)
      → Chunk l lo hi 0
      → Returns (visit (entry_address T l lo) lo hi) (Shows mask l T lo hi s)) where
  pub table-Shows :
      (fuel lo hi : ℕ)
      → ((a : ℕ) → a < hi → a % 4096 ≡ 0 → IsPartEnd l a hi (next_of a))
      → Chunk (suc l) lo hi 0
      → part l (hi - 1) < part l lo + fuel
      → Returns
          (dump_entries next_of visit fuel (entry_address T l lo) lo hi)
          (Shows mask l T lo hi s)
  table-Shows zero lo hi ends c enough =
      absurd (omega (arith, enough, part_mono l lo (hi - 1) (omega (arith, c.some_address))))
  table-Shows (suc fuel) lo hi ends c enough =
      let next = next_of lo in
      let e = ends lo c.some_address c.lo_aligned in
      let next_aligned : next % 4096 ≡ 0 = elim e.goes_on [
        | inl last ↦ rw last c.hi_aligned
        | inr (_, _, aligned) ↦ aligned
      ] in
      let (lines, ran, first) = one lo next record {
        some_address = e.forward;
        lo_aligned = c.lo_aligned;
        hi_aligned = next_aligned;
        phys_aligned = refl;
        virtual = omega (arith, e.within, c.virtual);
        physical = omega (arith, e.within, c.virtual);
        one_entry = e.one_entry;
      } in
      let result : Returns (dump_entries next_of visit (suc fuel) (entry_address T l lo) lo hi)
          (Shows mask l T lo hi s) =
        elim e.goes_on [
          | inl last ↦ (
            lines,
            dump_last next_of visit fuel (entry_address T l lo) lo hi lines ran last,
            record {
              all = λ (va d k : ℕ) a b found. first.all va d k a (omega (arith, last, b)) found;
            },
          )
          | inr (below, number, aligned) ↦
              let rest : Chunk (suc l) next hi 0 = record {
                some_address = below;
                lo_aligned = aligned;
                hi_aligned = c.hi_aligned;
                phys_aligned = refl;
                virtual = c.virtual;
                physical = omega (arith, c.virtual);
                one_entry = omega (
                  arith,
                  c.one_entry,
                  part_mono (suc l) lo next (omega (arith, e.forward)),
                  part_mono (suc l) next (hi - 1) (omega (arith, below)),
                );
              } in
              let (more, ran_more, second) =
                table-Shows fuel next hi ends rest (omega (arith, enough, number)) in
              (
                lines ++ more,
                dump_more next_of visit fuel (entry_address T l lo) (entry_address T l next) lo next
                    hi lines more ran refl
                    (next_entry l T lo next hi number below c.some_address c.one_entry)
                    (ground (arith, below)) ran_more,
                record {
                  all = λ va d k a b found. elim (Bool-cases (ltb va next)) [
                    | inl early ↦
                        Shown-left mask (4 - k) va d lines more
                          (first.all va d k a (ground (arith, early)) found)
                    | inr late ↦
                        Shown-right mask (4 - k) va d lines more
                          (second.all va d k (ground (arith, late)) b found)
                  ];
                },
              )
        ] in
      result
