-- ===== src/Fork/Find.antt =====
-- `find_empty_task` finds the first empty slot.
use arm64os.Common.{
  ℕ, zero, suc, ◌<◌, ◌≡◌, refl, ◌≢◌, ◌⊎◌, inl, inr, none, some, arith, sym, ◌∙◌, Option-cases,
}
use arm64os.PageAlloc.{find_free}
use arm64os.PageAlloc.Search.{IsFirst, find_free-IsFirst, find_free-none}
use arm64os.Kernel.{Kernel}
use arm64os.Fork.{nr_tasks, find_slot, find_empty_task}

-- The loop is that of `get_free_page`.
find_slot-find_free : (f : ℕ → ℕ) (left i : ℕ) → find_slot f left i ≡ find_free f left i
unfolding find_slot find_free
find_slot-find_free f zero i = refl
find_slot-find_free f (suc left) i = rw (find_slot-find_free f left (suc i))

-- `find_empty_task` returns the first empty slot of the task table, or -1 if none is empty.
pub find_empty_task_cases :
    (s : Kernel)
    → ((i : ℕ) × (find_empty_task s ≡ some i) × IsFirst s.g_task 0 nr_tasks i)
      ⊎ ((find_empty_task s ≡ none) × ((j : ℕ) → j < nr_tasks → s.g_task j ≢ 0))
find_empty_task_cases s =
    let e = find_slot-find_free s.g_task nr_tasks 0 in
    elim (Option-cases (find_slot s.g_task nr_tasks 0)) [
      | inl no_slot ↦ inr (
        unfold find_empty_task in no_slot,
        λ j h. find_free-none s.g_task nr_tasks 0 j (sym e ∙ no_slot) (omega arith) h,
      )
      | inr (i, found) ↦ inl (
        i,
        unfold find_empty_task in found,
        find_free-IsFirst s.g_task nr_tasks 0 (sym e ∙ found),
      )
    ]
