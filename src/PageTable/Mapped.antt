-- ===== src/PageTable/Mapped.antt =====
-- What a part of the work of mmu.c has done: a range is mapped below one table, all else is as before.
-- Such parts follow one another, and a part below a table is one below the table above.
use arm64os.Common.{
  ℕ, suc, ◌+◌, ◌-◌, ◌*◌, ◌%◌, ◌<◌, ◌≤◌, ◌≡◌, ◌≢◌, ◌⊎◌, inl, inr, some, arith, ap, sym, ◌∙◌,
  Bool-cases, ltb, ltb→lt, ltb→le,
}
use arm64os.PageTable.{PhysMemory}
use arm64os.PageTable.Walk.{part, target, entry_address, leaf, decode}
use arm64os.PageTable.Labels.{Labels, IsTables}
use arm64os.PageTable.Frame.{leaf_table}
use arm64os.PageTable.Entry.{translation}

pub record IsKept (g g' : Labels) : Type 0 where
  pub level : (x : ℕ) → g.level x ≢ 0 → g'.level x ≡ g.level x
  pub number : (x : ℕ) → g.level x ≢ 0 → g'.number x ≡ g.number x

-- From `s` to `t`, the addresses from `lo` to `hi` came to be mapped to those from `phys` on, below the
-- table `T` with `l` levels below its entries. Tables of higher levels are untouched, and so is each
-- walk for another address.
pub record Mapped (root prot l T lo hi phys : ℕ) (g g' : Labels) (s t : PhysMemory) : Type 0 where
  pub tables : IsTables root g' t
  pub kept : IsKept g g'
  pub above :
      (k x i : ℕ) → g.level x ≡ suc k → l < k → i < 512 → t.words (x + i * 8) ≡ s.words (x + i * 8)
  pub inside :
      (va : ℕ)
      → lo ≤ va
      → va < hi
      → decode va (leaf t.words (suc l) T va) ≡ some (translation prot (phys + (va - lo)))
  pub outside :
      (k x va : ℕ)
      → g.level x ≡ suc k
      → part (suc k) va ≡ g.number x
      → (va < lo) ⊎ (hi ≤ va)
      → leaf t.words (suc k) x va ≡ leaf s.words (suc k) x va

-- All of the range is for the table.
pub record Covers (l T lo hi : ℕ) (g : Labels) : Type 0 where
  pub level : g.level T ≡ suc l
  pub region : (va : ℕ) → lo ≤ va → va < hi → part (suc l) va ≡ g.number T

not_zero : {n k : ℕ} → n ≡ suc k → n ≢ 0
not_zero e z = absurd (omega (arith, e, z))

pub IsKept-trans : (g g' g'' : Labels) → IsKept g g' → IsKept g' g'' → IsKept g g''
IsKept-trans g g' g'' a b = record {
  level = λ x ne. let e = a.level x ne in b.level x (λ z. ne (sym e ∙ z)) ∙ e;
  number = λ x ne. let e = a.level x ne in b.number x (λ z. ne (sym e ∙ z)) ∙ a.number x ne;
}

pub Covers-kept :
    (l T lo hi : ℕ) (g g' : Labels) → IsKept g g' → Covers l T lo hi g → Covers l T lo hi g'
Covers-kept l T lo hi g g' k c = record {
  level = k.level T (not_zero c.level) ∙ c.level;
  region = λ va a b. c.region va a b ∙ sym (k.number T (not_zero c.level));
}

pub Covers-part :
    (l T lo hi lo' hi' : ℕ) (g : Labels)
    → lo ≤ lo'
    → hi' ≤ hi
    → Covers l T lo hi g
    → Covers l T lo' hi' g
Covers-part l T lo hi lo' hi' g a b c = record {
  level = c.level;
  region = λ va h k. c.region va (omega (arith, h)) (omega (arith, k));
}

module _ (root prot l T lo mid hi phys : ℕ) (g g1 g2 : Labels) (s s1 t : PhysMemory) where
  pub Mapped-then :
      lo ≤ mid
      → mid ≤ hi
      → Covers l T lo hi g
      → Mapped root prot l T lo mid phys g g1 s s1
      → Mapped root prot l T mid hi (phys + (mid - lo)) g1 g2 s1 t
      → Mapped root prot l T lo hi phys g g2 s t
  Mapped-then h k c a b =
      let c1 = Covers-kept l T lo hi g g1 a.kept c in
      record {
        tables = b.tables;
        kept = IsKept-trans g g1 g2 a.kept b.kept;
        above = λ m x i level above small.
            b.above m x i (a.kept.level x (not_zero level) ∙ level) above small
            ∙ a.above m x i level above small;
        inside = λ va from below. elim (Bool-cases (ltb va mid)) [
          | inl first ↦
              rw (b.outside l T va c1.level (c1.region va from below) (inl (ltb→lt va mid first)))
                (a.inside va from (ltb→lt va mid first))
          | inr second ↦
              let past = ltb→le va mid second in
              let same : phys + (mid - lo) + (va - mid) ≡ phys + (va - lo) = omega (arith, past) in
              b.inside va past below ∙ ap (λ p. some (translation prot p)) same
        ];
        outside = λ m x va level region out.
            b.outside m x va (a.kept.level x (not_zero level) ∙ level)
              (region ∙ sym (a.kept.number x (not_zero level))) (outside_second va out)
            ∙ a.outside m x va level region (outside_first va out);
      }
    where
      outside_second : (va : ℕ) → (va < lo) ⊎ (hi ≤ va) → (va < mid) ⊎ (hi ≤ va)
      outside_second va (inl a) = inl (omega (arith, a, h))
      outside_second va (inr a) = inr a

      outside_first : (va : ℕ) → (va < lo) ⊎ (hi ≤ va) → (va < lo) ⊎ (mid ≤ va)
      outside_first va (inl a) = inl a
      outside_first va (inr a) = inr (omega (arith, a, k))

-- Below the table that an entry points to is below the table with the entry.
pub Mapped-lift :
    (root prot l T i lo hi phys : ℕ) (g g' : Labels) (s t : PhysMemory)
    → g.level T ≡ suc (suc l)
    → i < 512
    → ((va : ℕ) → lo ≤ va → va < hi → part (suc l) va ≡ g.number T * 512 + i)
    → s.words (T + i * 8) % 4 ≡ 3
    → Mapped root prot l (target (s.words (T + i * 8))) lo hi phys g g' s t
    → Mapped root prot (suc l) T lo hi phys g g' s t
Mapped-lift root prot l T i lo hi phys g g' s t level small at_entry table m =
    let e = s.words (T + i * 8) in
    record {
      tables = m.tables;
      kept = m.kept;
      above = λ k x j h up. m.above k x j h (omega (arith, up));
      inside = λ va from below.
          let same : part (suc l) va % 512 ≡ i = omega (arith, at_entry va from below, small) in
          let stays : t.words (entry_address T (suc l) va) ≡ e =
            rw same (m.above (suc l) T i level (omega arith) small) in
          rw (leaf_table t.words l T va e stays table) (m.inside va from below);
      outside = m.outside;
    }
