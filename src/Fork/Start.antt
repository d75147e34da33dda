-- ===== src/Fork/Start.antt =====
-- What the end of `do_fork` sets in the new task, its parent and the shared state.
use arm64os.Common.{
  ℕ, ◌+◌, ◌%◌, ◌^◌, ◌≡◌, refl, ◌≢◌, inl, inr, true, arith, sym, ◌∙◌, ◌==◌, ==_iff, Bool-cases,
  if◌then◌else◌, update,
}
use arm64os.Common.Int.{pos, ◌+ℤ◌, half_ℤ}
use arm64os.ListHead.{list_add}
use arm64os.Kernel.{TaskStruct, task_running, Image, Kernel, current, run_list}
use arm64os.SchedNop.{enqueue_task}
use arm64os.Sched.{wake_up_process}
use arm64os.Fork.{set_links, fill_task, start_task}
use arm64os.Fork.Links.{set_links-keeps}

-- The new task, as `start_task` leaves it, and what changes of the others.
pub record Started (img : Image) (p pid : ℕ) (s t : Kernel) : Type 0 where
  pub state : (t.tasks p).state ≡ task_running
  pub pid_set : (t.tasks p).pid ≡ pid
  pub counter : (t.tasks p).counter ≡ half_ℤ ((s.tasks (current s)).counter +ℤ pos 1)
  pub priority : (t.tasks p).priority ≡ pos 2
  pub unmarked : (t.tasks p).need_resched ≡ 0
  pub preempt_count : (t.tasks p).preempt_count ≡ pos 0
  pub context : (t.tasks p).cpu_context ≡ (s.tasks p).cpu_context
  pub parent : (t.tasks (current s)).counter ≡ half_ℤ (s.tasks (current s)).counter
  pub others :
      (q : ℕ)
      → q ≢ p
      → t.tasks q ≡ record (s.tasks q) {
        counter = (t.tasks q).counter;
        next_task = (t.tasks q).next_task;
        prev_task = (t.tasks q).prev_task;
      }
  pub counters : (q : ℕ) → q ≢ p → q ≢ current s → (t.tasks q).counter ≡ (s.tasks q).counter
  pub linked : (q : ℕ) → (t.tasks q).next_task ≡ (set_links img p s.tasks q).next_task
  pub linked_back : (q : ℕ) → (t.tasks q).prev_task ≡ (set_links img p s.tasks q).prev_task
  pub rest : t ≡ record s {
    tasks = t.tasks;
    g_task = update s.g_task pid p;
    total_forks = (s.total_forks + 1) % 2 ^ 64;
    links = list_add (run_list p) img.rq_head s.links;
    nr_running = (s.nr_running + 1) % 2 ^ 32;
  }

abbrev child_of : (parent pid : ℕ) → (p : ℕ) → (ℕ → TaskStruct) → TaskStruct
child_of parent pid p tasks = record (tasks p) {
  state = task_running;
  pid = pid;
  counter = half_ℤ ((tasks parent).counter +ℤ pos 1);
  priority = pos 2;
  need_resched = 0;
  preempt_count = pos 0;
}

module _ (parent p pid : ℕ) (tasks : ℕ → TaskStruct) where
  fill_task-child : p ≢ parent → fill_task parent p pid tasks p ≡ child_of parent pid p tasks
  unfolding fill_task
  fill_task-child ne = ground arith

  fill_task-parent :
      p ≢ parent
      → fill_task parent p pid tasks parent
        ≡ record (tasks parent) { counter = half_ℤ (tasks parent).counter }
  unfolding fill_task
  fill_task-parent ne = ground arith

  fill_task-others : (q : ℕ) → q ≢ p → q ≢ parent → fill_task parent p pid tasks q ≡ tasks q
  unfolding fill_task
  fill_task-others q h k = ground arith

  fill_task-keeps :
      (q : ℕ)
      → q ≢ p
      → fill_task parent p pid tasks q
        ≡ record (tasks q) { counter = (fill_task parent p pid tasks q).counter }
  unfolding fill_task
  fill_task-keeps q h = ground arith

  fill_task-links :
      (q : ℕ)
      → ((fill_task parent p pid tasks q).next_task ≡ (tasks q).next_task)
        × ((fill_task parent p pid tasks q).prev_task ≡ (tasks q).prev_task)
  unfolding fill_task
  fill_task-links q = (ground arith, ground arith)

-- The links that `SET_LINKS` makes depend on the links alone.
pub set_links_ext :
    (img : Image) (p : ℕ) (a b : ℕ → TaskStruct)
    → ((q : ℕ) → ((a q).next_task ≡ (b q).next_task) × ((a q).prev_task ≡ (b q).prev_task))
    → (q : ℕ)
    → ((set_links img p a q).next_task ≡ (set_links img p b q).next_task)
      × ((set_links img p a q).prev_task ≡ (set_links img p b q).prev_task)
unfolding set_links
set_links_ext img p a b same q = (
  ground (arith, same q, same p, same img.init_task),
  ground (arith, same q, same p, same img.init_task),
)

-- Two changes in a row: of the links, and before that of the counter.
join_changes :
    (a b c d : TaskStruct)
    → a ≡ b
    → b ≡ record c { next_task = b.next_task; prev_task = b.prev_task }
    → c ≡ record d { counter = c.counter }
    → a ≡ record d { counter = a.counter; next_task = a.next_task; prev_task = a.prev_task }
join_changes a b c d e f g = ground arith

pub start_task-Started :
    (img : Image) (p pid : ℕ) (s : Kernel)
    → p ≢ current s
    → Started img p pid s (start_task img p pid s)
start_task-Started img p pid s ne =
    let par = current s in
    let ts = fill_task par p pid s.tasks in
    let linked = set_links img p ts in
    let t = start_task img p pid s in
    let keep = set_links-keeps img p ts in
    let child = fill_task-child par p pid s.tasks ne in
    let tasks_is : (q : ℕ)
        → t.tasks q ≡ (if q == p then record (linked p) { state = task_running } else linked q) =
      λ q. unfold start_task wake_up_process enqueue_task in refl in
    let self : (p == p) ≡ true = (==_iff p p).1 refl in
    let away : (q : ℕ) → q ≢ p → t.tasks q ≡ linked q = λ q h. tasks_is q ∙ (ground arith) in
    let new : t.tasks p ≡ record (linked p) { state = task_running } = tasks_is p ∙ (rw self) in
    let links = set_links_ext img p ts s.tasks (fill_task-links par p pid s.tasks) in
    let same_links : (q : ℕ)
        → ((t.tasks q).next_task ≡ (linked q).next_task)
          × ((t.tasks q).prev_task ≡ (linked q).prev_task) =
      λ q. elim (Bool-cases (q == p)) [
        | inl e ↦ let w : q ≡ p = (==_iff q p).0 e in rw w (rw new, rw new)
        | inr n ↦ let away_q = away q (λ w. cc (n, (==_iff q p).1 w)) in (rw away_q, rw away_q)
      ] in
    record {
      state = rw new;
      pid_set = rw (new, keep p, child);
      counter = rw (new, keep p, child);
      priority = rw (new, keep p, child);
      unmarked = rw (new, keep p, child);
      preempt_count = rw (new, keep p, child);
      context = rw (new, keep p, child);
      parent = rw (away par (λ e. ne (sym e)), keep par, fill_task-parent par p pid s.tasks ne);
      others = λ q h.
          join_changes (t.tasks q) (linked q) (ts q) (s.tasks q) (away q h) (keep q)
            (fill_task-keeps par p pid s.tasks q h);
      counters = λ q h k. rw (away q h, keep q, fill_task-others par p pid s.tasks q h k);
      linked = λ q. (same_links q).0 ∙ (links q).0;
      linked_back = λ q. (same_links q).1 ∙ (links q).1;
      rest = unfold start_task wake_up_process enqueue_task in refl;
    }
