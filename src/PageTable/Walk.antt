-- ===== src/PageTable/Walk.antt =====
-- What the memory management unit does with four levels of tables of 4 KB pages: an independent
-- description of the walk, by which the code is judged. Level 1 is the table of pages, level 4 the root.
use arm64os.Common.{ℕ, zero, suc, ◌+◌, ◌*◌, ◌/◌, ◌%◌, ◌^◌, Option, none, some, ◌==◌, if◌then◌else◌}

-- The number of the entry, of the entries at one level over all tables, that is for `va`.
abbrev pub part : (below va : ℕ) → ℕ
part zero va = va / 4096
part (suc l) va = part l va / 512

-- The address in an entry.
abbrev pub target : ℕ → ℕ
target entry = entry / 2 ^ 12 % 2 ^ 36 * 2 ^ 12

abbrev pub entry_address : (table below va : ℕ) → ℕ
entry_address x l va = x + part l va % 512 * 8

-- The entry that maps `va`, with the number of levels below it, from the table `x` whose entries have
-- `l - 1` levels below them.
unfoldable pub leaf : (ℕ → ℕ) → (l x va : ℕ) → Option (ℕ × ℕ)
leaf m zero x va = none
leaf m (suc zero) x va =
    let e = m (entry_address x 0 va) in if e % 4 == 3 then some (e, 0) else none
leaf m (suc (suc l)) x va =
    let e = m (entry_address x (suc l) va) in
    let rest = leaf m (suc l) (target e) va in
    if e % 4 == 3 then rest else if e % 4 == 1 then some (e, suc l) else none

-- A translation: the physical address, and the attributes in the low and the high part of the entry.
pub record Translation : Type 0 where
  pub address : ℕ
  pub low_attributes : ℕ
  pub high_attributes : ℕ

abbrev pub output : (e l va : ℕ) → ℕ
output e zero va = e / 2 ^ 12 % 2 ^ 36 * 2 ^ 12 + va % 2 ^ 12
output e (suc zero) va = e / 2 ^ 21 % 2 ^ 27 * 2 ^ 21 + va % 2 ^ 21
output e (suc (suc l)) va = e / 2 ^ 30 % 2 ^ 18 * 2 ^ 30 + va % 2 ^ 30

abbrev pub decode : ℕ → Option (ℕ × ℕ) → Option Translation
decode va none = none
decode va (some (e, l)) = some (record {
  address = output e l va;
  low_attributes = e % 2 ^ 12 / 4;
  high_attributes = e / 2 ^ 48;
})

-- The translation of `va` by the tables at `pgdir`.
unfoldable pub translate : (ℕ → ℕ) → (pgdir va : ℕ) → Option Translation
unfolding leaf
translate m pgdir va = decode va (leaf m 4 pgdir va)
