-- ===== src/PageTable/Labels.antt =====
-- Which page is which table: the invariant of the tables in memory, by a level and a number for each.
use arm64os.Common.{ℕ, zero, suc, ◌+◌, ◌*◌, ◌%◌, ◌<◌, ◌≡◌, ◌≢◌, ◌⊎◌, inl, inr, arith}
use arm64os.PageAlloc.{PageAlloc, nr_pages, page_address}
use arm64os.PageTable.{PhysMemory}
use arm64os.PageTable.Walk.{target}

-- `level` is 0 where no table is.
pub record Labels : Type 0 where
  pub level : ℕ → ℕ
  pub number : ℕ → ℕ

-- The entry `e` of the table `x` at index `i`, with `l` levels below it, is empty, a section of 2 MB, or
-- points to the table that its place says. Of the last level nothing is asked.
abbrev pub EntryFits : Labels → (l x i e : ℕ) → Type 0
EntryFits g zero x i e = Unit {0}
EntryFits g (suc l) x i e =
    (e ≡ 0)
    ⊎ ((l ≡ 0) × (e % 4 ≡ 1))
    ⊎ ((e % 4 ≡ 3) × (g.level (target e) ≡ suc l) × (g.number (target e) ≡ g.number x * 512 + i))

abbrev pub IsUsedPage : PageAlloc → ℕ → Type 0
IsUsedPage pages x = (j : ℕ) × (j < nr_pages) × (x ≡ page_address j) × (pages.mem_map j ≢ 0)

pub record IsTables (root : ℕ) (g : Labels) (s : PhysMemory) : Type 0 where
  pub placed : (x : ℕ) → g.level x ≢ 0 → (x ≡ root) ⊎ IsUsedPage s.pages x
  pub entries : (l x i : ℕ) → g.level x ≡ suc l → i < 512 → EntryFits g l x i (s.words (x + i * 8))

-- The root is page aligned and not one of the pages to allocate.
pub record IsRoot (root : ℕ) : Type 0 where
  pub aligned : root % 4096 ≡ 0
  pub apart : (j : ℕ) → j < nr_pages → root ≢ page_address j

abbrev Aligned-root : (root x : ℕ) (pages : PageAlloc) → Type 0
Aligned-root root x pages = (x ≡ root) ⊎ IsUsedPage pages x

pub table-aligned :
    (root x : ℕ) (pages : PageAlloc) → IsRoot root → (x ≡ root) ⊎ IsUsedPage pages x → x % 4096 ≡ 0
table-aligned root x pages r (inl e) = rw e r.aligned
table-aligned root x pages r (inr (j, h, e, used)) = omega arith

-- Two entries at one address are one.
pub entry_unique :
    (x y i j : ℕ)
    → x % 4096 ≡ 0
    → y % 4096 ≡ 0
    → i < 512
    → j < 512
    → x + i * 8 ≡ y + j * 8
    → (x ≡ y) × (i ≡ j)
entry_unique x y i j a b h k e = omega arith
