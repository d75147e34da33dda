-- ===== src/Sched/Keeps.antt =====
-- What the part of `__schedule` behind the choice leaves alone.
use arm64os.Common.{
  ℕ, ◌+◌, ◌%◌, ◌^◌, ◌≡◌, ◌≢◌, refl, arith, ◌∙◌, ◌==◌, if◌then◌else◌, update, Bool-cases, inl, inr,
}
use arm64os.Common.Int.{ℤ}
use arm64os.Kernel.{
  TaskStruct, TaskState, Image, Kernel, Caller, from_schedule, from_preempt_schedule_irq, current,
}
use arm64os.Sched.{
  preempt_enable, raw_local_irq_disable, schedule_tail, finish, resume, clear_task_resched,
  switch_to, switch_from,
}

-- What no step of the scheduler changes of a task, and with it the counter, which the choice may.
abbrev pub rest_of : TaskStruct → ℤ × ℕ × ℕ × TaskState
rest_of t = (t.priority, t.next_task, t.prev_task, t.state)

abbrev pub core_of : TaskStruct → ℤ × ℤ × ℕ × ℕ × TaskState
core_of t = (t.counter, t.priority, t.next_task, t.prev_task, t.state)

-- The core of all tasks, their rescheduling marks, the saved contexts of all but `p`, and the run queue.
record SameQueue (p : ℕ) (s t : Kernel) : Type 0 where
  contexts : (q : ℕ) → q ≢ p → (t.tasks q).cpu_context ≡ (s.tasks q).cpu_context
  core : (q : ℕ) → core_of (t.tasks q) ≡ core_of (s.tasks q)
  marks : (q : ℕ) → (t.tasks q).need_resched ≡ (s.tasks q).need_resched
  links : t.links ≡ s.links
  nr_running : t.nr_running ≡ s.nr_running
  pages : t.pages ≡ s.pages
  total_forks : t.total_forks ≡ s.total_forks

SameQueue-trans : (p : ℕ) (s t u : Kernel) → SameQueue p s t → SameQueue p t u → SameQueue p s u
SameQueue-trans p s t u a b = record {
  contexts = λ q ne. b.contexts q ne ∙ a.contexts q ne;
  core = λ q. b.core q ∙ a.core q;
  marks = λ q. b.marks q ∙ a.marks q;
  links = b.links ∙ a.links;
  nr_running = b.nr_running ∙ a.nr_running;
  pages = b.pages ∙ a.pages;
  total_forks = b.total_forks ∙ a.total_forks;
}

finish-SameQueue : (p : ℕ) (caller : Caller) (s : Kernel) → SameQueue p s (finish caller s)
unfolding finish preempt_enable raw_local_irq_disable
finish-SameQueue p from_schedule s = record {
  contexts = λ q ne. ground arith;
  core = λ q. ground arith;
  marks = λ q. ground arith;
  links = refl;
  nr_running = refl;
  pages = refl;
  total_forks = refl;
}
finish-SameQueue p from_preempt_schedule_irq s = record {
  contexts = λ q ne. ground arith;
  core = λ q. ground arith;
  marks = λ q. ground arith;
  links = refl;
  nr_running = refl;
  pages = refl;
  total_forks = refl;
}

tail-SameQueue : (p : ℕ) (s : Kernel) → SameQueue p s (schedule_tail s)
unfolding schedule_tail
tail-SameQueue p s = record {
  contexts = λ q ne. refl;
  core = λ q. refl;
  links = refl;
  marks = λ q. refl;
  nr_running = refl;
  pages = refl;
  total_forks = refl;
}

resume-SameQueue : (p : ℕ) (img : Image) (s : Kernel) → SameQueue p s (resume img s)
resume-SameQueue p img s = elim (Bool-cases (s.cpu.pc == img.ret_from_fork)) [
  | inl new ↦ unfold resume in rw new (tail-SameQueue p s)
  | inr old ↦
      let s1 : Kernel = record s { nr_switches = (s.nr_switches + 1) % 2 ^ 64; curr = current s } in
      let there : SameQueue p s s1 = record {
        contexts = λ q ne. refl;
        core = λ q. refl;
        marks = λ q. refl;
        links = refl;
        nr_running = refl;
        pages = refl;
        total_forks = refl;
      } in
      let tail = SameQueue-trans p s s1 (schedule_tail s1) there (tail-SameQueue p s1) in
      unfold resume in
      rw old (
        SameQueue-trans p s (schedule_tail s1) (finish (s.callers (current s)) (schedule_tail s1))
          tail (finish-SameQueue p (s.callers (current s)) (schedule_tail s1)))
]

switch_to-SameQueue :
    (img : Image) (prev next : ℕ) (s : Kernel) → SameQueue prev s (switch_to img prev next s).1
unfolding switch_to
switch_to-SameQueue img prev next s = record {
  contexts = λ q ne. ground (arith, ne);
  core = λ q. ground arith;
  marks = λ q. ground arith;
  links = ground arith;
  nr_running = ground arith;
  pages = ground arith;
  total_forks = ground arith;
}

-- Behind the choice, the previous thread's rescheduling mark is cleared, and the cores, the other marks,
-- the other threads' contexts, the queue, the pages and the number of forks stay.
pub record IsSettled (prev : ℕ) (s t : Kernel) : Type 0 where
  pub contexts : (q : ℕ) → q ≢ prev → (t.tasks q).cpu_context ≡ (s.tasks q).cpu_context
  pub core : (q : ℕ) → core_of (t.tasks q) ≡ core_of (s.tasks q)
  pub marks :
      (q : ℕ) → (t.tasks q).need_resched ≡ (if q == prev then 0 else (s.tasks q).need_resched)
  pub links : t.links ≡ s.links
  pub nr_running : t.nr_running ≡ s.nr_running
  pub pages : t.pages ≡ s.pages
  pub total_forks : t.total_forks ≡ s.total_forks

clear-IsSettled : (p : ℕ) (s : Kernel) → IsSettled p s (clear_task_resched p s)
unfolding clear_task_resched
clear-IsSettled p s = record {
  contexts = λ q ne. ground arith;
  core = λ q. ground arith;
  marks = λ q. ground arith;
  links = refl;
  nr_running = refl;
  pages = refl;
  total_forks = refl;
}

Settled_trans : (p : ℕ) (s t u : Kernel) → IsSettled p s t → SameQueue p t u → IsSettled p s u
Settled_trans p s t u a b = record {
  contexts = λ q ne. b.contexts q ne ∙ a.contexts q ne;
  core = λ q. b.core q ∙ a.core q;
  marks = λ q. b.marks q ∙ a.marks q;
  links = b.links ∙ a.links;
  nr_running = b.nr_running ∙ a.nr_running;
  pages = b.pages ∙ a.pages;
  total_forks = b.total_forks ∙ a.total_forks;
}

pub switch_from-IsSettled :
    (img : Image) (caller : Caller) (prev next : ℕ) (s : Kernel)
    → IsSettled prev s (switch_from img caller prev next s)
unfolding switch_from
switch_from-IsSettled img caller prev next s =
    let s1 = clear_task_resched prev s in
    elim (Bool-cases (next == prev)) [
      | inl self ↦
          let tail =
            Settled_trans prev s s1 (schedule_tail s1) (clear-IsSettled prev s)
              (tail-SameQueue prev s1) in
          rw self (
            Settled_trans prev s (schedule_tail s1) (finish caller (schedule_tail s1)) tail
              (finish-SameQueue prev caller (schedule_tail s1)))
      | inr other ↦
          let s2 : Kernel = record s1 { callers = update s1.callers prev caller } in
          let there : SameQueue prev s1 s2 = record {
            contexts = λ q ne. refl;
            core = λ q. refl;
            marks = λ q. refl;
            links = refl;
            nr_running = refl;
            pages = refl;
            total_forks = refl;
          } in
          let gone = (switch_to img prev next s2).1 in
          let a = Settled_trans prev s s1 s2 (clear-IsSettled prev s) there in
          let b = Settled_trans prev s s2 gone a (switch_to-SameQueue img prev next s2) in
          rw other (Settled_trans prev s gone (resume img gone) b (resume-SameQueue prev img gone))
    ]
