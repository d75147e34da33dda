-- ===== src/SchedNop.antt =====
-- kernel/sched_nop.c: the one scheduling class. Tasks wait in the ring of `run_list` nodes at
-- `rq_head`; the loops over links run on fuel.
pub mod Queue
pub mod Score
pub mod Pick
pub mod Tick
use arm64os.Common.{
  ℕ, zero, suc, ◌+◌, ◌-◌, ◌/◌, ◌%◌, ◌^◌, Bool, true, false, Option, none, some, List, [], ◌∷◌, ◌==◌,
  if◌then◌else◌, update, Result, ok, out_of_fuel, ◌>>=◌, deref, ended,
}
use arm64os.Common.Int.{ℤ, pos, negsuc, ◌+ℤ◌, ◌-ℤ◌, ltb_ℤ}
use arm64os.ListHead.{list_add, list_del, list_for_each}
use arm64os.Kernel.{
  TaskStruct, Image, Kernel, need_resched_of, run_list, list_entry, set_task, printk,
}

abbrev pub hz : ℕ
hz = 250

abbrev pub def_counter : ℤ
def_counter = pos (hz / 10)

-- `nr_running` is an `unsigned int`.
unfoldable pub dequeue_task : ℕ → Kernel → Kernel
dequeue_task p s = record s {
  nr_running = (s.nr_running + 2 ^ 32 - 1) % 2 ^ 32;
  links = list_del (run_list p) s.links;
}

unfoldable pub enqueue_task : Image → ℕ → Kernel → Kernel
enqueue_task img p s = record s {
  links = list_add (run_list p) img.rq_head s.links;
  nr_running = (s.nr_running + 1) % 2 ^ 32;
}

unfoldable pub task_tick : ℕ → Kernel → Kernel
task_tick p s =
    let t = s.tasks p in
    let left = t.counter -ℤ pos 1 in
    if ltb_ℤ (pos 0) left
    then set_task p (record t { counter = left }) s
    else printk (need_resched_of t.pid)
        (set_task p (record t { counter = pos 0; need_resched = 1 }) s)

unfoldable pub goodness : TaskStruct → ℤ
goodness t = t.counter

-- The loop of `reset_score` behind task `p`.
unfoldable pub reset_loop : Image → ℕ → ℕ → (ℕ → TaskStruct) → Result (ℕ → TaskStruct)
reset_loop img zero p tasks = out_of_fuel
reset_loop img (suc fuel) p tasks =
    let q = (tasks p).next_task in
    let rest =
      reset_loop img fuel q
        (update tasks q (record (tasks q) { counter = def_counter +ℤ (tasks q).priority })) in
    if q == img.init_task then ok tasks else rest

unfoldable pub reset_score : Image → ℕ → Kernel → Result Kernel
unfolding reset_loop
reset_score img fuel s = do
  tasks ← reset_loop img fuel img.init_task s.tasks
  ok (record s { tasks = tasks })

-- The search for the highest weight: `c` and `next` after the nodes. `next` is unset at first.
unfoldable pub best : (ℕ → TaskStruct) → List ℕ → ℤ → Option ℕ → ℤ × Option ℕ
best tasks [] c next = (c, next)
best tasks (node ∷ nodes) c next =
    let p = list_entry node in
    let higher = ltb_ℤ c (goodness (tasks p)) in
    best tasks nodes (if higher then goodness (tasks p) else c) (if higher then some p else next)

-- `!c`
abbrev pub is_zero : ℤ → Bool
is_zero (pos zero) = true
is_zero (pos (suc _)) = false
is_zero (negsuc _) = false

-- `pick_next_task_nop`, with `rounds` passes by `goto repeat` at most. An unset `next` is a fault.
unfoldable pub pick_next_task : Image → (fuel rounds : ℕ) → Kernel → Result (ℕ × Kernel)
unfolding best goodness
pick_next_task img fuel zero s = out_of_fuel
pick_next_task img fuel (suc rounds) s = do
  nodes ← ended (list_for_each fuel (s.links.next img.rq_head) img.rq_head s.links)
  let (c, next) = best s.tasks nodes (negsuc 999) none
  if is_zero c
      then (do t ← reset_score img fuel s; pick_next_task img fuel rounds t)
      else do p ← deref next; ok (p, s)
