-- ===== src/Fork.antt =====
-- kernel/fork.c: making tasks. The page at `p` holds the task `Kernel.tasks p` and, at its top, the
-- register frame `Kernel.frames (task_pt_regs p)`; `memset` to 0 of each is a record of zeros (their
-- sizes are above 16 bytes and their addresses multiples of 16, where `memset` does fill them).
pub mod Find
pub mod Links
pub mod Copy
pub mod Start
pub mod Create
pub mod Balance
use arm64os.Common.{
  ℕ, zero, suc, ◌+◌, ◌-◌, ◌%◌, ◌^◌, Bool, true, false, Option, none, some, ◌==◌, if◌then◌else◌,
  update, Result, ok, ◌>>=◌, bit_and, bit_or,
}
use arm64os.Common.Int.{ℤ, pos, negsuc, ◌+ℤ◌, half_ℤ}
use arm64os.PageAlloc.{page_size, get_free_page, free_page}
use arm64os.Kernel.{
  CpuContext, TaskStruct, task_running, PtRegs, Image, Kernel, thread_size, current, set_task,
}
use arm64os.Sched.{wake_up_process}

abbrev pub nr_tasks : ℕ
nr_tasks = 128

abbrev pub pf_kthread : ℕ
pf_kthread = 1

abbrev pub psr_mode_el0t : ℕ
psr_mode_el0t = 0

abbrev pub psr_mode_el1h : ℕ
psr_mode_el1h = 5

abbrev pub size_of_pt_regs : ℕ
size_of_pt_regs = 320

abbrev pub zero_context : CpuContext
zero_context = record {
  x19 = 0;
  x20 = 0;
  x21 = 0;
  x22 = 0;
  x23 = 0;
  x24 = 0;
  x25 = 0;
  x26 = 0;
  x27 = 0;
  x28 = 0;
  fp = 0;
  sp = 0;
  pc = 0;
}

abbrev pub zero_task : TaskStruct
zero_task = record {
  state = task_running;
  flags = 0;
  pid = 0;
  cpu_context = zero_context;
  counter = pos 0;
  priority = pos 0;
  need_resched = 0;
  preempt_count = pos 0;
  next_task = 0;
  prev_task = 0;
}

abbrev pub zero_regs : PtRegs
zero_regs = record { regs = λ _. 0; sp = 0; pc = 0; pstate = 0; orig_x0 = 0; syscallno = 0 }

-- `SET_LINKS(p)`: its four assignments, in order.
unfoldable pub set_links : Image → ℕ → (ℕ → TaskStruct) → ℕ → TaskStruct
set_links img p tasks =
    let a = update tasks p (record (tasks p) { next_task = img.init_task }) in
    let last = (a img.init_task).prev_task in
    let b = update a p (record (a p) { prev_task = last }) in
    let c = update b last (record (b last) { next_task = p }) in
    update c img.init_task (record (c img.init_task) { prev_task = p })

-- The loop of `find_empty_task` at slot `i`; `none` is -1.
unfoldable pub find_slot : (ℕ → ℕ) → (left i : ℕ) → Option ℕ
find_slot g_task zero i = none
find_slot g_task (suc left) i =
    let rest = find_slot g_task left (suc i) in if g_task i == 0 then some i else rest

unfoldable pub find_empty_task : Kernel → Option ℕ
find_empty_task s = find_slot s.g_task nr_tasks 0

abbrev pub task_pt_regs : ℕ → ℕ
task_pt_regs tsk = tsk + thread_size - size_of_pt_regs

abbrev pub set_frame : ℕ → PtRegs → Kernel → Kernel
set_frame a r s = record s { frames = update s.frames a r }

-- The frame of a child of a user thread, or `none` for a stack that is not aligned.
unfoldable pub user_frame : PtRegs → ℕ → Option PtRegs
user_frame parent stack =
    let child = record parent { regs = update parent.regs 0 0 } in
    if stack == 0
    then some child
    else if bit_and stack 15 == 0
    then some (record child { sp = stack })
    else none

-- `copy_thread`, with whether it returned 0. The last two assignments are made on success alone.
unfoldable pub copy_thread : Image → (clone_flags p stack arg : ℕ) → Kernel → Bool × Kernel
unfolding user_frame
copy_thread img clone_flags p stack arg s =
    let childregs = task_pt_regs p in
    let s1 = set_frame childregs zero_regs s in
    let s2 = set_task p (record (s1.tasks p) { cpu_context = zero_context }) s1 in
    let start = λ (c : CpuContext). record c { pc = img.ret_from_fork; sp = childregs } in
    if bit_and clone_flags pf_kthread == 0
    then elim (user_frame (s2.frames (task_pt_regs (current s2))) stack) [
      | none ↦ (
        false,
        set_frame childregs
            (let parent = s2.frames (task_pt_regs (current s2)) in
              record parent { regs = update parent.regs 0 0 })
            s2,
      )
      | some r ↦ (
        true,
        set_task p (record (s2.tasks p) { cpu_context = start (s2.tasks p).cpu_context })
            (set_frame childregs r s2),
      )
    ]
    else (
      true,
      set_task p
          (record (s2.tasks p) {
            cpu_context = start (record ((s2.tasks p).cpu_context) { x19 = stack; x20 = arg });
          })
          (set_frame childregs (record (s2.frames childregs) { pstate = psr_mode_el1h }) s2),
    )

-- The assignments of `do_fork` behind `copy_thread` to the fields of the new task and its parent.
unfoldable pub fill_task : (parent p pid : ℕ) → (ℕ → TaskStruct) → ℕ → TaskStruct
fill_task parent p pid tasks =
    let child = record (tasks p) {
      state = task_running;
      pid = pid;
      counter = half_ℤ ((tasks parent).counter +ℤ pos 1);
    } in
    let a = update tasks p child in
    let b = update a parent (record (a parent) { counter = half_ℤ (a parent).counter }) in
    update b p (record (b p) { need_resched = 0; preempt_count = pos 0; priority = pos 2 })

-- Those and what follows them, up to the return.
unfoldable pub start_task : Image → (p pid : ℕ) → Kernel → Kernel
start_task img p pid s = wake_up_process img p (record s {
  total_forks = (s.total_forks + 1) % 2 ^ 64;
  g_task = update s.g_task pid p;
  tasks = set_links img p (fill_task (current s) p pid s.tasks);
})

-- The error paths of `do_fork`, which free the page and return -1.
unfoldable pub fork_failed : ℕ → Kernel → Result (ℤ × Kernel)
fork_failed p s = do pages ← free_page p s.pages; ok (negsuc 0, record s { pages = pages })

unfoldable pub do_fork : Image → (clone_flags stack arg : ℕ) → Kernel → Result (ℤ × Kernel)
do_fork img clone_flags stack arg s =
    let (p, pages) = get_free_page s.pages in
    if p == 0
    then ok (negsuc 0, record s { pages = pages })
    else let s1 = set_task p zero_task (record s { pages = pages }) in
      elim (find_empty_task s1) [
        | none ↦ fork_failed p s1
        | some pid ↦
            let (copied, s2) = copy_thread img clone_flags p stack arg s1 in
            if copied then ok (pos pid, start_task img p pid s2) else fork_failed p s2
      ]

unfoldable pub kernel_thread : Image → (fn arg flags : ℕ) → Kernel → Result (ℤ × Kernel)
kernel_thread img fn arg flags s = do_fork img (bit_or flags pf_kthread) fn arg s

-- `start_user_thread`: the new contents of the frame.
unfoldable pub start_user_thread : (pc sp : ℕ) → PtRegs
start_user_thread pc sp = record zero_regs { pc = pc; pstate = psr_mode_el0t; sp = sp }

-- The contents of the stack page are not modelled.
unfoldable pub move_to_user_space : ℕ → Kernel → ℤ × Kernel
unfolding start_user_thread
move_to_user_space pc s =
    let (stack, pages) = get_free_page s.pages in
    let s1 = record s { pages = pages } in
    if stack == 0
    then (negsuc 0, s1)
    else (pos 0, set_frame (task_pt_regs (current s)) (start_user_thread pc (stack + page_size)) s1)
