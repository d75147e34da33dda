-- ===== src/PageAlloc.antt =====
-- mm/page_alloc.c: the map of used pages and its three operations, with the constants of
-- arch/arm64/include/asm/mm.h and include/page.h. `mem_map` is a function from the index, with
-- `nr_pages` entries; an access at any other index is a fault.
pub mod Search
pub mod Alloc
pub mod Init
use arm64os.Common.{
  ℕ, zero, suc, ◌+◌, ◌-◌, ◌*◌, ◌/◌, ◌%◌, ◌^◌, Option, none, some, ltb, ◌==◌, if◌then◌else◌, update,
  Result, ok, fault,
}
use arm64os.Common.Bits.{and_not}

abbrev pub page_size : ℕ
page_size = 2 ^ 12

abbrev pub section_size : ℕ
section_size = 2 ^ 21

abbrev pub low_memory : ℕ
low_memory = 2 * section_size

abbrev pub total_memory : ℕ
total_memory = 512 * 0x100000

abbrev pub nr_pages : ℕ
nr_pages = total_memory / page_size

-- `unsigned long` arithmetic
abbrev pub u64 : ℕ → ℕ
u64 n = n % 2 ^ 64

-- `addr & PAGE_MASK`
unfoldable pub page_align_down : ℕ → ℕ
page_align_down addr = and_not addr (page_size - 1)

-- `PAGE_ALIGN(addr)`
unfoldable pub page_align : ℕ → ℕ
unfolding page_align_down
page_align addr = page_align_down (u64 (addr + page_size - 1))

pub record PageAlloc : Type 0 where
  pub mem_map : ℕ → ℕ
  pub phy_start_address : ℕ

-- What `mem_init` reports: the free kilobytes and pages.
pub record MemReport : Type 0 where
  pub kilobytes : ℕ
  pub nr_free_pages : ℕ

-- The counting loop of `mem_init`, on fuel; `none` means that the fuel ran out.
unfoldable pub count_pages : ℕ → ℕ → ℕ → ℕ → Option ℕ
count_pages zero start_mem end_mem count = none
count_pages (suc fuel) start_mem end_mem count =
    let rest = count_pages fuel (u64 (start_mem + page_size)) end_mem (u64 (count + 1)) in
    if ltb start_mem end_mem then rest else some count

-- `mem_init` with the values that it prints. The fuel is one more than the pages of an address
-- space: see `Search.mem_init-count`.
unfoldable pub mem_init : ℕ → ℕ → ℕ → PageAlloc → PageAlloc × Option MemReport
unfolding count_pages page_align
mem_init fuel start_mem end_mem s =
    let start = page_align start_mem in
    let stop = page_align_down end_mem in
    let free = u64 (stop + 2 ^ 64 - start) in
    (
      record s { phy_start_address = start },
      elim (count_pages fuel start stop 0) [
        | none ↦ none
        | some n ↦ some (record { kilobytes = free / 1024; nr_free_pages = n })
      ],
    )

-- The loop of `get_free_page` at index `i`, with `left` rounds to go: the first free index.
unfoldable pub find_free : (ℕ → ℕ) → ℕ → ℕ → Option ℕ
find_free mem_map zero i = none
find_free mem_map (suc left) i =
    let rest = find_free mem_map left (suc i) in if mem_map i == 0 then some i else rest

abbrev pub page_address : ℕ → ℕ
page_address i = low_memory + i * page_size

-- The address of a page that was free and is now used, or 0.
unfoldable pub get_free_page : PageAlloc → ℕ × PageAlloc
unfolding find_free
get_free_page s = elim (find_free s.mem_map nr_pages 0) [
  | none ↦ (0, s)
  | some i ↦ (page_address i, record s { mem_map = update s.mem_map i 1 })
]

-- The index wraps as `unsigned long` does; outside of the array the write is a fault.
unfoldable pub free_page : ℕ → PageAlloc → Result PageAlloc
free_page p s =
    let i = u64 (p + 2 ^ 64 - low_memory) / page_size in
    if ltb i nr_pages then ok (record s { mem_map = update s.mem_map i 0 }) else fault
