-- ===== src/Tests/Memory.antt =====
-- Tests of mm/page_alloc.c.
use arm64os.Common.{
  ℕ, ◌+◌, ◌-◌, ◌*◌, ◌%◌, ◌≤◌, ◌≡◌, refl, ◌≢◌, arith, ok, some, if◌then◌else◌, ltb, ◌⊎◌, inl, inr,
}
use arm64os.PageAlloc.{
  PageAlloc, page_size, low_memory, total_memory, nr_pages, get_free_page, free_page, mem_init,
}
use arm64os.PageAlloc.Alloc.{
  Allocated, Exhausted, get_free_page_cases, get_free_page_bounds, free_page-get_free_page,
}
use arm64os.PageAlloc.Init.{mem_init-count}
use arm64os.Tests.{two_pages}

third_page : (get_free_page two_pages).0 ≡ 4202496
unfolding get_free_page
third_page = refl

get_free_page_cases_example :
    ((i : ℕ) × Allocated two_pages i (get_free_page two_pages))
    ⊎ Exhausted two_pages (get_free_page two_pages)
get_free_page_cases_example = get_free_page_cases two_pages

get_free_page_bounds_example :
    (low_memory ≤ (get_free_page two_pages).0)
    × ((get_free_page two_pages).0 % page_size ≡ 0)
    × ((get_free_page two_pages).0 + page_size ≤ low_memory + total_memory)
get_free_page_bounds_example = get_free_page_bounds two_pages (rw third_page (omega arith))

free_page-get_free_page_example :
    (t : PageAlloc) × (free_page (get_free_page two_pages).0 (get_free_page two_pages).1 ≡ ok t)
    × ((j : ℕ) → t.mem_map j ≡ two_pages.mem_map j)
free_page-get_free_page_example = free_page-get_free_page two_pages (rw third_page (omega arith))

-- Every page below TOTAL_MEMORY is used.
abbrev low_used : PageAlloc
low_used = record {
  mem_map = λ j. if ltb (low_memory + j * page_size) total_memory then 1 else 0;
  phy_start_address = 0;
}

low_used-page : (get_free_page low_used).0 ≢ 0
low_used-page z = elim (get_free_page_cases low_used) [
  | inl (i, a) ↦ let e : low_memory + i * page_size ≡ 0 = rw a.returns at z in omega arith
  | inr (used, e) ↦ used (nr_pages - 1) (omega arith) refl
]

mem_init-count_example : mem_init 10 5000 20000 two_pages ≡ (
  record two_pages { phy_start_address = 8192 },
  some (record { kilobytes = 8; nr_free_pages = 2 }),
)
mem_init-count_example =
    mem_init-count 10 5000 20000 two_pages (omega arith) (omega arith) (omega arith) (omega arith)
