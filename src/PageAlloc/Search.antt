-- ===== src/PageAlloc/Search.antt =====
-- The search of `get_free_page` finds the first free page.
use arm64os.Common.{
  ℕ, zero, suc, ◌+◌, ◌≤◌, ◌<◌, ◌≡◌, ◌≢◌, none, some, arith, ◌==◌, Bool-cases, inl, inr,
}
use arm64os.PageAlloc.{find_free}

-- The first free index from `i` on, among `left` indices.
pub record IsFirst (mem_map : ℕ → ℕ) (lo hi i : ℕ) : Type 0 where
  pub above : lo ≤ i
  pub below : i < hi
  pub free : mem_map i ≡ 0
  pub first : (j : ℕ) → lo ≤ j → j < i → mem_map j ≢ 0

pub find_free-IsFirst :
    (mem_map : ℕ → ℕ) (left lo : ℕ) {i : ℕ}
    → find_free mem_map left lo ≡ some i
    → IsFirst mem_map lo (lo + left) i
unfolding find_free
find_free-IsFirst mem_map zero lo h = absurd (ground arith)
find_free-IsFirst mem_map (suc left) lo {i} h = elim (Bool-cases (mem_map lo == 0)) [
  | inl free ↦ record {
    above = ground arith;
    below = ground arith;
    free = ground arith;
    first = λ j p q. absurd (ground arith);
  }
  | inr used ↦
      let rest : IsFirst mem_map (suc lo) (suc lo + left) i =
        find_free-IsFirst mem_map left (suc lo) (ground arith) in
      record {
        above = omega arith;
        below = omega arith;
        free = rest.free;
        first = λ j p q. ground (arith, rest.first j);
      }
]

pub find_free-none :
    (mem_map : ℕ → ℕ) (left lo j : ℕ)
    → find_free mem_map left lo ≡ none
    → lo ≤ j
    → j < lo + left
    → mem_map j ≢ 0
unfolding find_free
find_free-none mem_map zero lo j h p q = absurd (omega arith)
find_free-none mem_map (suc left) lo j h p q =
    ground (arith, find_free-none mem_map left (suc lo) j)
