-- ===== src/PageTable/Fresh.antt =====
-- A free page becomes an empty table.
use arm64os.Common.{
  ℕ, zero, suc, ◌+◌, ◌*◌, ◌<◌, ◌≡◌, ◌≢◌, inl, inr, arith, refl, ap, sym, ◌∙◌, Bool-cases, ◌==◌,
  ==_iff, update,
}
use arm64os.PageAlloc.{nr_pages, page_address}
use arm64os.PageTable.{PhysMemory, clear_page}
use arm64os.PageTable.Walk.{part, target, leaf}
use arm64os.PageTable.Labels.{Labels, EntryFits, IsTables, IsRoot, table-aligned}
use arm64os.PageTable.Frame.{leaf_kept}
use arm64os.PageTable.Mapped.{IsKept}

-- The memory after the allocation of the page of index `j`.
abbrev pub cleared : (j : ℕ) → PhysMemory → PhysMemory
cleared j s = record s {
  words = clear_page (page_address j) s.words;
  pages = record (s.pages) { mem_map = update s.pages.mem_map j 1 };
}

abbrev pub labelled : (p level number : ℕ) → Labels → Labels
labelled p level number g = record {
  level = update g.level p level;
  number = update g.number p number;
}

module _ (root : ℕ) (r : IsRoot root) (g : Labels) (s : PhysMemory) (tables : IsTables root g s)
    (j : ℕ) (in_map : j < nr_pages) (free : s.pages.mem_map j ≡ 0) (l number : ℕ) where
  -- A free page is no table.
  pub free-unlabelled : g.level (page_address j) ≡ 0
  free-unlabelled = elim (Bool-cases (g.level (page_address j) == 0)) [
    | inl z ↦ (==_iff (g.level (page_address j)) 0).0 z
    | inr ne ↦ elim (tables.placed (page_address j) (λ z. ground (arith, z, ne))) [
      | inl is_root ↦ absurd (r.apart j in_map (sym is_root))
      | inr (k, below, same, used) ↦
          let index : j ≡ k = omega (arith, same) in
          absurd (used (sym (ap s.pages.mem_map index) ∙ free))
    ]
  ]

  pub other_table : (x k : ℕ) → g.level x ≡ suc k → x ≢ page_address j
  other_table x k h e = omega (arith, h, free-unlabelled, ap g.level e)

  pub label-IsKept : IsKept g (labelled (page_address j) (suc l) number g)
  label-IsKept = record {
    level = λ x ne. elim (Bool-cases (x == page_address j)) [
      | inl e ↦ absurd (ne (ap g.level ((==_iff x (page_address j)).0 e) ∙ free-unlabelled))
      | inr e ↦ rw e
    ];
    number = λ x ne. elim (Bool-cases (x == page_address j)) [
      | inl e ↦ absurd (ne (ap g.level ((==_iff x (page_address j)).0 e) ∙ free-unlabelled))
      | inr e ↦ rw e
    ];
  }

  -- Entries of the tables there were are not in the page.
  pub cleared_off :
      (k x i : ℕ)
      → g.level x ≡ suc k
      → i < 512
      → (cleared j s).words (x + i * 8) ≡ s.words (x + i * 8)
  cleared_off k x i h below =
      let aligned = table-aligned root x s.pages r (tables.placed x (λ z. omega (arith, z, h))) in
      let other : x ≢ page_address j = other_table x k h in ground (arith, aligned, other, below)

  pub cleared_on : (i : ℕ) → i < 512 → (cleared j s).words (page_address j + i * 8) ≡ 0
  cleared_on i below = ground (arith, below)

  fits_kept :
      (k x i e : ℕ)
      → g.level x ≢ 0
      → EntryFits g k x i e
      → EntryFits (labelled (page_address j) (suc l) number g) k x i e
  fits_kept zero x i e ne h = tt
  fits_kept (suc k) x i e ne (inl h) = inl h
  fits_kept (suc k) x i e ne (inr (inl h)) = inr (inl h)
  fits_kept (suc k) x i e ne (inr (inr (h, level, n))) =
      let there : g.level (target e) ≢ 0 = λ z. omega (arith, z, level) in
      inr (
        inr (
          h,
          label-IsKept.level (target e) there ∙ level,
          label-IsKept.number (target e) there
              ∙ n
              ∙ ap (λ (q : ℕ). q * 512 + i) (sym (label-IsKept.number x ne)),
        ))

  empty_fits : (k x i : ℕ) → EntryFits (labelled (page_address j) (suc l) number g) k x i 0
  empty_fits zero x i = tt
  empty_fits (suc k) x i = inl refl

  pub cleared-IsTables : IsTables root (labelled (page_address j) (suc l) number g) (cleared j s)
  cleared-IsTables = record {
    placed = λ x ne. elim (Bool-cases (x == page_address j)) [
      | inl e ↦ inr (j, in_map, (==_iff x (page_address j)).0 e, ground arith)
      | inr e ↦ elim (tables.placed x (rw e at ne)) [
        | inl is_root ↦ inl is_root
        | inr (k, below, same, used) ↦ inr (k, below, same, ground (arith, used))
      ]
    ];
    entries = λ k x i h below. elim (Bool-cases (x == page_address j)) [
      | inl e ↦
          let same : x ≡ page_address j = (==_iff x (page_address j)).0 e in
          rw same (rw (cleared_on i below) (empty_fits k (page_address j) i))
      | inr e ↦
          let old : g.level x ≡ suc k = rw e at h in
          rw (cleared_off k x i old below) (
            fits_kept k x i (s.words (x + i * 8)) (λ z. omega (arith, z, old))
              (tables.entries k x i old below))
    ];
  }

  pub leaf-cleared :
      (k x va : ℕ)
      → g.level x ≡ suc k
      → part (suc k) va ≡ g.number x
      → leaf (cleared j s).words (suc k) x va ≡ leaf s.words (suc k) x va
  leaf-cleared k x va =
      leaf_kept root g s tables (cleared j s).words va
        (λ m y i h below. inl (cleared_off m y i h below)) k x
