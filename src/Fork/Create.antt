-- ===== src/Fork/Create.antt =====
-- What `do_fork` does, on every path.
use arm64os.Common.{
  ℕ, ◌+◌, ◌%◌, ◌^◌, ◌<◌, ◌≡◌, refl, ◌≢◌, ◌⊎◌, inl, inr, true, false, none, some, arith, ap, sym,
  ◌∙◌, ◌==◌, ==_iff, Bool-cases, update, Returns,
}
use arm64os.Common.Int.{pos, negsuc, ◌+ℤ◌, half_ℤ}
use arm64os.ListHead.{list_add}
use arm64os.PageAlloc.{get_free_page}
use arm64os.PageAlloc.Search.{IsFirst}
use arm64os.PageAlloc.Alloc.{free_page-get_free_page, get_free_page_zero}
use arm64os.Kernel.{
  CpuContext, TaskStruct, task_running, PtRegs, Image, Kernel, current, run_list, set_task,
}
use arm64os.Fork.{
  nr_tasks, zero_task, find_empty_task, copy_thread, set_links, start_task, fork_failed, do_fork,
  task_pt_regs,
}
use arm64os.Fork.Copy.{
  accepts, copy_thread-accepts, copy_thread-context, CopyKeeps, copy_thread-CopyKeeps,
}
use arm64os.Fork.Start.{start_task-Started, set_links_ext}
use arm64os.Fork.Find.{find_empty_task_cases}

-- A new task `p` under the number `pid`, and what changes of the rest.
pub record Forked (img : Image) (s : Kernel) (p pid : ℕ) (t : Kernel) : Type 0 where
  pub first_slot : IsFirst s.g_task 0 nr_tasks pid
  pub started : (t.tasks p).state ≡ task_running
  pub pid_set : (t.tasks p).pid ≡ pid
  pub counter : (t.tasks p).counter ≡ half_ℤ ((s.tasks (current s)).counter +ℤ pos 1)
  pub priority : (t.tasks p).priority ≡ pos 2
  pub unmarked : (t.tasks p).need_resched ≡ 0
  pub preempt_count : (t.tasks p).preempt_count ≡ pos 0
  pub entry : (t.tasks p).cpu_context.pc ≡ img.ret_from_fork
  pub stack : (t.tasks p).cpu_context.sp ≡ task_pt_regs p
  pub linked :
      (q : ℕ) → (t.tasks q).next_task ≡ (set_links img p (update s.tasks p zero_task) q).next_task
  pub linked_back :
      (q : ℕ) → (t.tasks q).prev_task ≡ (set_links img p (update s.tasks p zero_task) q).prev_task
  pub parent : (t.tasks (current s)).counter ≡ half_ℤ (s.tasks (current s)).counter
  pub others :
      (q : ℕ)
      → q ≢ p
      → t.tasks q ≡ record (s.tasks q) {
        counter = (t.tasks q).counter;
        next_task = (t.tasks q).next_task;
        prev_task = (t.tasks q).prev_task;
      }
  pub counters : (q : ℕ) → q ≢ p → q ≢ current s → (t.tasks q).counter ≡ (s.tasks q).counter
  pub rest : t ≡ record s {
    tasks = t.tasks;
    frames = t.frames;
    pages = (get_free_page s.pages).1;
    g_task = update s.g_task pid p;
    total_forks = (s.total_forks + 1) % 2 ^ 64;
    links = list_add (run_list p) img.rq_head s.links;
    nr_running = (s.nr_running + 1) % 2 ^ 32;
  }

-- No new task: the page map is as before at every index, and nothing else changes but the page
-- `p`, the task and the frame in it.
pub record Unforked (s : Kernel) (p : ℕ) (t : Kernel) : Type 0 where
  pub pages : (j : ℕ) → t.pages.mem_map j ≡ s.pages.mem_map j
  pub others : (q : ℕ) → q ≢ p → t.tasks q ≡ s.tasks q
  pub frames : (a : ℕ) → a ≢ task_pt_regs p → t.frames a ≡ s.frames a
  pub rest : t ≡ record s { tasks = t.tasks; frames = t.frames; pages = t.pages }

module _ (img : Image) (clone_flags stack arg : ℕ) (s : Kernel) where
  abbrev pub page : ℕ
  page = (get_free_page s.pages).0

  -- The state once the page of the new task is zeroed.
  abbrev pub zeroed : Kernel
  zeroed = set_task page zero_task (record s { pages = (get_free_page s.pages).1 })

  abbrev pub copied : Kernel
  copied = (copy_thread img clone_flags page stack arg zeroed).1

  fork_failed-Unforked :
      (u : Kernel)
      → page ≢ 0
      → CopyKeeps page zeroed u
      → Returns (fork_failed page u) (λ r. (r.0 ≡ negsuc 0) × Unforked s page r.1)
  unfolding fork_failed
  fork_failed-Unforked u ne keep =
      let pages_same : u.pages ≡ (get_free_page s.pages).1 =
        ap (λ (k : Kernel). k.pages) keep.rest in
      let (back, runs, same) = free_page-get_free_page s.pages ne in
      (
        (negsuc 0, record u { pages = back }),
        rw (pages_same, runs),
        (
          refl,
          record {
            pages = same;
            others = λ q h. keep.others q h ∙ (ground arith);
            frames = keep.frames;
            rest = ap (λ (k : Kernel). record k { pages = back }) keep.rest;
          },
        ),
      )

  -- Why `do_fork` makes no task.
  abbrev pub Refused : Type 0
  Refused =
      (page ≡ 0) ⊎ (((j : ℕ) → j < nr_tasks → s.g_task j ≢ 0) ⊎ (accepts clone_flags stack ≡ false))

  Forked-start :
      (pid : ℕ)
      → page ≢ current s
      → IsFirst s.g_task 0 nr_tasks pid
      → (copy_thread img clone_flags page stack arg zeroed).0 ≡ true
      → Forked img s page pid (start_task img page pid copied)
  Forked-start pid ne slot taken =
      let keep = copy_thread-CopyKeeps img clone_flags page stack arg zeroed in
      let cpu_same : copied.cpu ≡ s.cpu = ap (λ (k : Kernel). k.cpu) keep.rest in
      let current_same : current copied ≡ current s = rw cpu_same in
      let parent_same : copied.tasks (current s) ≡ s.tasks (current s) =
        keep.others (current s) (λ e. ne (sym e)) ∙ (ground arith) in
      let st = start_task-Started img page pid copied (rw current_same ne) in
      let kept : (q : ℕ) → q ≢ page → copied.tasks q ≡ s.tasks q =
        λ q h. keep.others q h ∙ (ground arith) in
      let context = copy_thread-context img clone_flags page stack arg zeroed taken in
      let base =
        set_links_ext img page copied.tasks zeroed.tasks
          (λ q. (rw (keep.tasks q), rw (keep.tasks q))) in
      let t = start_task img page pid copied in
      let changed =
        st.rest
        ∙ ap
            (λ (k : Kernel). record k {
              tasks = t.tasks;
              g_task = update k.g_task pid page;
              total_forks = (k.total_forks + 1) % 2 ^ 64;
              links = list_add (run_list page) img.rq_head k.links;
              nr_running = (k.nr_running + 1) % 2 ^ 32;
            })
            keep.rest in
      record {
        first_slot = slot;
        started = st.state;
        pid_set = st.pid_set;
        counter = rw (st.counter, current_same, parent_same);
        priority = st.priority;
        unmarked = st.unmarked;
        preempt_count = st.preempt_count;
        entry = ap (λ (c : CpuContext). c.pc) st.context ∙ context.0;
        stack = ap (λ (c : CpuContext). c.sp) st.context ∙ context.1;
        linked = λ q. st.linked q ∙ (base q).0;
        linked_back = λ q. st.linked_back q ∙ (base q).1;
        parent = rw parent_same at (rw current_same at st.parent);
        others = λ q h. rw (kept q h) at (st.others q h);
        counters = λ q h k.
            st.counters q h (rw current_same k) ∙ ap (λ (x : TaskStruct). x.counter) (kept q h);
        rest =
            changed
            ∙ ap
                (λ (f : ℕ → PtRegs). record s {
                  tasks = t.tasks;
                  frames = f;
                  pages = (get_free_page s.pages).1;
                  g_task = update s.g_task pid page;
                  total_forks = (s.total_forks + 1) % 2 ^ 64;
                  links = list_add (run_list page) img.rq_head s.links;
                  nr_running = (s.nr_running + 1) % 2 ^ 32;
                })
                (sym (ap (λ (k : Kernel). k.frames) st.rest));
      }

  pub do_fork_cases :
      page ≢ current s
      → Returns (do_fork img clone_flags stack arg s) (λ r.
        ((pid : ℕ) × (r.0 ≡ pos pid) × (page ≢ 0) × Forked img s page pid r.1)
        ⊎ (Refused × (r.0 ≡ negsuc 0) × Unforked s page r.1))
  unfolding do_fork
  do_fork_cases apart = elim (Bool-cases (page == 0)) [
    | inl none_left ↦
        let zero : page ≡ 0 = (==_iff page 0).0 none_left in
        let same = get_free_page_zero s.pages zero in
        (
          (negsuc 0, record s { pages = (get_free_page s.pages).1 }),
          rw none_left,
          inr (
            inl zero,
            refl,
            record {
              pages = λ j. rw same;
              others = λ q h. refl;
              frames = λ a h. refl;
              rest = refl;
            },
          ),
        )
    | inr some_page ↦
        let ne : page ≢ 0 = λ e. cc (some_page, (==_iff page 0).1 e) in
        elim (find_empty_task_cases s) [
          | inr (no_slot, full) ↦
              let (r, runs, (e, un)) = fork_failed-Unforked zeroed ne (record {
                tasks = λ q. refl;
                others = λ q h. refl;
                frames = λ a h. refl;
                rest = refl;
              }) in
              let here : find_empty_task zeroed ≡ none = unfold find_empty_task in no_slot in
              (r, rw (some_page, here) runs, inr (inr (inl full), e, un))
          | inl (pid, slot, first) ↦
              let here : find_empty_task zeroed ≡ some pid = unfold find_empty_task in slot in
              elim (Bool-cases (accepts clone_flags stack)) [
                | inl taken ↦ (
                  (pos pid, start_task img page pid copied),
                  rw (
                    some_page,
                    here,
                    copy_thread-accepts img clone_flags page stack arg zeroed,
                    taken,
                  ),
                  inl (
                    pid,
                    refl,
                    ne,
                    Forked-start pid apart first
                        (copy_thread-accepts img clone_flags page stack arg zeroed ∙ taken),
                  ),
                )
                | inr refused ↦
                    let (r, runs, (e, un)) =
                      fork_failed-Unforked copied ne
                        (copy_thread-CopyKeeps img clone_flags page stack arg zeroed) in
                    (
                      r,
                      rw
                          (
                            some_page,
                            here,
                            copy_thread-accepts img clone_flags page stack arg zeroed,
                            refused,
                          )
                          runs,
                      inr (inr (inr refused), e, un),
                    )
              ]
        ]
  ]
