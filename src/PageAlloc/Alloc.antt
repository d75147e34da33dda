-- ===== src/PageAlloc/Alloc.antt =====
-- What `get_free_page` and `free_page` do to the map of used pages.
use arm64os.Common.{
  ℕ, ◌+◌, ◌-◌, ◌*◌, ◌/◌, ◌%◌, ◌^◌, ◌≤◌, ◌<◌, ◌≡◌, ◌≢◌, ◌⊎◌, inl, inr, arith, ap, Option-cases,
  update, ok,
}
use arm64os.PageAlloc.{
  PageAlloc, page_size, low_memory, total_memory, nr_pages, page_address, u64, find_free,
  get_free_page, free_page,
}
use arm64os.PageAlloc.Search.{IsFirst, find_free-IsFirst, find_free-none}

-- The first free page is handed out and marked, or every page is used and nothing changes.
pub record Allocated (s : PageAlloc) (i : ℕ) (result : ℕ × PageAlloc) : Type 0 where
  pub is_first : IsFirst s.mem_map 0 nr_pages i
  pub returns : result ≡ (page_address i, record s { mem_map = update s.mem_map i 1 })

abbrev pub Exhausted : PageAlloc → ℕ × PageAlloc → Type 0
Exhausted s result = ((j : ℕ) → j < nr_pages → s.mem_map j ≢ 0) × (result ≡ (0, s))

-- `get_free_page` hands out the page of the lowest free index and marks it as used, and nothing
-- else changes; only when every page is used does it return 0, and then the state is unchanged.
pub get_free_page_cases :
    (s : PageAlloc) → ((i : ℕ) × Allocated s i (get_free_page s)) ⊎ Exhausted s (get_free_page s)
unfolding get_free_page
get_free_page_cases s = elim (Option-cases (find_free s.mem_map nr_pages 0)) [
  | inl e ↦
      inr (λ j h. find_free-none s.mem_map nr_pages 0 j e (omega arith) h, rw (e, get_free_page))
  | inr (i, e) ↦ inl (
    i,
    record { is_first = find_free-IsFirst s.mem_map nr_pages 0 e; returns = rw (e, get_free_page) },
  )
]

-- A page that `get_free_page` returns, where it does not return 0, is page aligned, and it lies whole
-- between LOW_MEMORY and LOW_MEMORY + TOTAL_MEMORY.
pub get_free_page_bounds :
    (s : PageAlloc)
    → (get_free_page s).0 ≢ 0
    → (low_memory ≤ (get_free_page s).0)
      × ((get_free_page s).0 % page_size ≡ 0)
      × ((get_free_page s).0 + page_size ≤ low_memory + total_memory)
get_free_page_bounds s ne = elim (get_free_page_cases s) [
  | inl (i, a) ↦ rw a.returns (ground (arith, a.is_first.below))
  | inr (used, e) ↦ absurd (ne (ap (λ (r : ℕ × PageAlloc). r.0) e))
]

-- Once the pages that lie below TOTAL_MEMORY are used, a page that `get_free_page` returns lies at
-- or above TOTAL_MEMORY, outside of the memory that the kernel maps.
pub get_free_page_above :
    (s : PageAlloc)
    → ((j : ℕ) → low_memory + j * page_size < total_memory → s.mem_map j ≢ 0)
    → (get_free_page s).0 ≢ 0
    → total_memory ≤ (get_free_page s).0
get_free_page_above s used ne = elim (get_free_page_cases s) [
  | inl (i, a) ↦ rw a.returns (ground (arith, a.is_first.free, used i))
  | inr (all, e) ↦ absurd (ne (ap (λ (r : ℕ × PageAlloc). r.0) e))
]

free_page_of_address :
    (s : PageAlloc) (i : ℕ)
    → i < nr_pages
    → free_page (page_address i) s ≡ ok (record s { mem_map = update s.mem_map i 0 })
unfolding free_page
free_page_of_address s i h =
    let e : u64 (page_address i + 2 ^ 64 - low_memory) / page_size ≡ i = omega arith in
    rw e (ground arith)

-- Freeing a page that `get_free_page` has just returned, which is not 0, does not fault, and gives
-- back the map as it was before, at every index.
pub free_page-get_free_page :
    (s : PageAlloc)
    → (get_free_page s).0 ≢ 0
    → (t : PageAlloc) × (free_page (get_free_page s).0 (get_free_page s).1 ≡ ok t)
      × ((j : ℕ) → t.mem_map j ≡ s.mem_map j)
free_page-get_free_page s ne = elim (get_free_page_cases s) [
  | inl (i, a) ↦
      let used : PageAlloc = record s { mem_map = update s.mem_map i 1 } in
      (
        record used { mem_map = update used.mem_map i 0 },
        rw a.returns (free_page_of_address used i a.is_first.below),
        λ j. ground (arith, a.is_first.free),
      )
  | inr (all, e) ↦ absurd (ne (ap (λ (r : ℕ × PageAlloc). r.0) e))
]

-- After an allocation that did not return 0, the next one does not hand out the same page.
pub get_free_page_distinct :
    (s : PageAlloc)
    → (get_free_page s).0 ≢ 0
    → (get_free_page (get_free_page s).1).0 ≢ (get_free_page s).0
get_free_page_distinct s ne same = elim (get_free_page_cases s) [
  | inl (i, a) ↦
      let e : get_free_page s ≡ (page_address i, record s { mem_map = update s.mem_map i 1 }) =
        a.returns in
      again i (record s { mem_map = update s.mem_map i 1 }) (ground arith) (rw e at same)
  | inr (all, e) ↦ absurd (ne (ap (λ (r : ℕ × PageAlloc). r.0) e))
]
  where
    again : (i : ℕ) (t : PageAlloc) → t.mem_map i ≢ 0 → (get_free_page t).0 ≡ page_address i → ⊥
    again i t used eq = elim (get_free_page_cases t) [
      | inl (j, b) ↦
          let p : page_address j ≡ page_address i = rw b.returns at eq in
          used (ground (arith, b.is_first.free))
      | inr (all, e) ↦ let z : 0 ≡ page_address i = rw e at eq in absurd (omega arith)
    ]

-- A failed allocation changes nothing.
pub get_free_page_zero : (s : PageAlloc) → (get_free_page s).0 ≡ 0 → (get_free_page s).1 ≡ s
get_free_page_zero s z = elim (get_free_page_cases s) [
  | inl (i, a) ↦ let e : page_address i ≡ 0 = rw a.returns at z in absurd (omega arith)
  | inr (all, e) ↦ ap (λ (r : ℕ × PageAlloc). r.1) e
]
