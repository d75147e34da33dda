-- ===== src/PageTable/Frame.antt =====
-- Walks that a change of the tables leaves alone.
use arm64os.Common.{
  ℕ, zero, suc, ◌+◌, ◌*◌, ◌%◌, ◌<◌, ◌≡◌, ◌⊎◌, inl, inr, none, some, arith, refl, sym, ◌∙◌,
}
use arm64os.PageTable.{PhysMemory}
use arm64os.PageTable.Walk.{part, target, entry_address, leaf}
use arm64os.PageTable.Labels.{Labels, IsTables}

-- The walk through an entry, by what the entry is.
pub leaf_empty :
    (m : ℕ → ℕ) (l x va : ℕ) → m (entry_address x l va) ≡ 0 → leaf m (suc l) x va ≡ none
unfolding leaf
leaf_empty m zero x va e = rw e
leaf_empty m (suc l) x va e = rw e

pub leaf_block :
    (m : ℕ → ℕ) (l x va e : ℕ)
    → m (entry_address x (suc l) va) ≡ e
    → e % 4 ≡ 1
    → leaf m (suc (suc l)) x va ≡ some (e, suc l)
unfolding leaf
leaf_block m l x va e same h = rw (same, h)

pub leaf_table :
    (m : ℕ → ℕ) (l x va e : ℕ)
    → m (entry_address x (suc l) va) ≡ e
    → e % 4 ≡ 3
    → leaf m (suc (suc l)) x va ≡ leaf m (suc l) (target e) va
unfolding leaf
leaf_table m l x va e same h = rw (same, h)

pub leaf_page :
    (m : ℕ → ℕ) (x va e : ℕ)
    → m (entry_address x 0 va) ≡ e
    → e % 4 ≡ 3
    → leaf m 1 x va ≡ some (e, 0)
unfolding leaf
leaf_page m x va e same h = rw (same, h)

-- The entry of `va` in a table whose number says that the table is for `va`.
pub part_split : (l n va : ℕ) → part (suc l) va ≡ n → part l va ≡ n * 512 + part l va % 512
part_split l n va h = omega (arith, h)

module _ (root : ℕ) (g : Labels) (s : PhysMemory) (tables : IsTables root g s) (m' : ℕ → ℕ) (va : ℕ)
    (same : (l y i : ℕ)
      → g.level y ≡ suc l
      → i < 512
      → (m' (y + i * 8) ≡ s.words (y + i * 8))
        ⊎ (part l va ≡ g.number y * 512 + i
            → leaf m' (suc l) y va ≡ leaf s.words (suc l) y va)) where
  -- From a table that is for `va`, the walk is as before where each entry on its way is as before, or
  -- the walk from there.
  pub leaf_kept :
      (l x : ℕ)
      → g.level x ≡ suc l
      → part (suc l) va ≡ g.number x
      → leaf m' (suc l) x va ≡ leaf s.words (suc l) x va
  leaf_kept zero x h region =
      let i = part 0 va % 512 in
      elim (same zero x i h (omega arith)) [
        | inr walk ↦ walk (part_split 0 (g.number x) va region)
        | inl e ↦ unfold leaf in rw e
      ]
  leaf_kept (suc l) x h region =
      let i = part (suc l) va % 512 in
      let e = s.words (x + i * 8) in
      elim (same (suc l) x i h (omega arith)) [
        | inr walk ↦ walk (part_split (suc l) (g.number x) va region)
        | inl kept ↦ elim (tables.entries (suc l) x i h (omega arith)) [
          | inl empty ↦
              leaf_empty m' (suc l) x va (kept ∙ empty)
              ∙ sym (leaf_empty s.words (suc l) x va empty)
          | inr (inl (_, block)) ↦
              leaf_block m' l x va e kept block ∙ sym (leaf_block s.words l x va e refl block)
          | inr (inr (table, level, number)) ↦
              leaf_table m' l x va e kept table
              ∙ leaf_kept l (target e) level
                  (part_split (suc l) (g.number x) va region ∙ sym number)
              ∙ sym (leaf_table s.words l x va e refl table)
        ]
      ]
