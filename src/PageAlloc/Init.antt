-- ===== src/PageAlloc/Init.antt =====
-- `mem_init` counts the pages between the aligned ends of the memory.
use arm64os.Common.{ℕ, zero, suc, ◌+◌, ◌-◌, ◌*◌, ◌/◌, ◌^◌, ◌≤◌, ◌<◌, ◌≡◌, some, arith}
use arm64os.Common.Bits.{and_low_mask}
use arm64os.PageAlloc.{
  PageAlloc, page_size, page_align_down, page_align, count_pages, mem_init, u64,
}

pub page_align_down_lem : (a : ℕ) → page_align_down a ≡ a / page_size * page_size
unfolding page_align_down
page_align_down_lem a = omega (arith, and_low_mask 12 a)

pub page_align_lem :
    (a : ℕ) → a + page_size ≤ 2 ^ 64 → page_align a ≡ (a + (page_size - 1)) / page_size * page_size
unfolding page_align
page_align_lem a h = omega (arith, and_low_mask 12 (u64 (a + page_size - 1)))

count_pages_lem :
    (fuel start stop n count : ℕ)
    → n < fuel
    → stop ≡ start + n * page_size
    → stop < 2 ^ 64
    → count + n < 2 ^ 64
    → count_pages fuel start stop count ≡ some (count + n)
unfolding count_pages
count_pages_lem zero start stop n count h e fits small = absurd (omega arith)
count_pages_lem (suc fuel) start stop zero count h e fits small = ground arith
count_pages_lem (suc fuel) start stop (suc n) count h e fits small =
    ground (arith, count_pages_lem fuel (start + page_size) stop n (count + 1))

-- With memory that ends at or above the first page boundary, `mem_init` records that boundary and
-- its loop ends, given one round more than there are pages; it reports the pages that lie whole
-- in the memory, and their size in kilobytes, and leaves the map of used pages alone.
pub mem_init-count :
    (fuel a b : ℕ) (s : PageAlloc)
    → a + page_size ≤ 2 ^ 64
    → b < 2 ^ 64
    → (a + (page_size - 1)) / page_size ≤ b / page_size
    → b / page_size - (a + (page_size - 1)) / page_size < fuel
    → mem_init fuel a b s ≡ (
      record s { phy_start_address = (a + (page_size - 1)) / page_size * page_size },
      some (record {
        kilobytes = 4 * (b / page_size - (a + (page_size - 1)) / page_size);
        nr_free_pages = b / page_size - (a + (page_size - 1)) / page_size;
      }),
    )
unfolding mem_init
mem_init-count fuel a b s ha hb order enough =
    let n : ℕ = b / page_size - (a + (page_size - 1)) / page_size in
    ground (
      arith,
      page_align_lem a ha,
      page_align_down_lem b,
      count_pages_lem fuel (page_align a) (page_align_down b) n 0,
    )
