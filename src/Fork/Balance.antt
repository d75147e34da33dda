-- ===== src/Fork/Balance.antt =====
-- `do_fork` keeps what the scheduler relies on.
use arm64os.Common.{
  ℕ, ◌+◌, ◌%◌, ◌^◌, ◌<◌, ◌≡◌, refl, ◌≢◌, ◌⊎◌, inl, inr, true, false, List, [], ◌∷◌, ◌++◌, arith, ap,
  sym, ◌∙◌, ◌==◌, ==_iff, Bool-cases, update, length, Returns,
}
use arm64os.Common.Int.{ℤ, pos, negsuc, ◌+ℤ◌, ◌≤ℤ◌, half_ℤ}
use arm64os.PageAlloc.{page_size}
use arm64os.PageAlloc.Alloc.{get_free_page_bounds}
use arm64os.ListHead.Ring.{has}
use arm64os.ListHead.Laws.{has-append}
use arm64os.Kernel.{TaskStruct, Image, Kernel, current, run_list}
use arm64os.SchedNop.{enqueue_task}
use arm64os.SchedNop.Queue.{IsQueue, enqueue_task-IsQueue}
use arm64os.SchedNop.Score.{TaskChain, TaskChain-ext}
use arm64os.Sched.Switch.{OnStack}
use arm64os.Sched.Preempt.{IsBalanced, waiting_count}
use arm64os.Sched.Outcome.{IsReady}
use arm64os.PageAlloc.Search.{IsFirst}
use arm64os.Fork.{zero_task, set_links, do_fork, nr_tasks}
use arm64os.Fork.Links.{IsLinked, set_links-IsLinked}
use arm64os.Fork.Create.{Forked, Unforked, page, do_fork_cases}

-- What `schedule` asks for, with the ring of all tasks linked both ways.
pub record IsRunnable (img : Image) (s : Kernel) (ts us : List ℕ) : Type 0 where
  pub balanced : IsBalanced img ts s
  pub ready : IsReady img s ts us
  pub linked : IsLinked img s.tasks us
  pub counter : pos 0 ≤ℤ (s.tasks (current s)).counter

-- The address `p` lies apart from all tasks and from the head of the queue.
pub record IsApart (img : Image) (s : Kernel) (ts us : List ℕ) (p : ℕ) : Type 0 where
  pub queued : has p ts ≡ false
  pub linked : has p us ≡ false
  pub init_task : p ≢ img.init_task
  pub running : p ≢ current s
  pub rq_head : run_list p ≢ img.rq_head

TaskChain-frame :
    (a b : ℕ → TaskStruct) (p stop : ℕ) (us : List ℕ)
    → ((q : ℕ) → has q (p ∷ us) ≡ true → (b q).next_task ≡ (a q).next_task)
    → TaskChain a p us stop
    → TaskChain b p us stop
TaskChain-frame a b p stop [] same c = same p (ground arith) ∙ c
TaskChain-frame a b p stop (u ∷ us) same c =
    (same p (ground arith) ∙ c.0, TaskChain-frame a b u stop us (λ q h. same q (ground arith)) c.1)

-- The ring depends on the tasks in it alone.
IsLinked-frame :
    (img : Image) (a b : ℕ → TaskStruct) (us : List ℕ) (p : ℕ)
    → p ≢ img.init_task
    → has p us ≡ false
    → ((q : ℕ) → q ≢ p → b q ≡ a q)
    → IsLinked img a us
    → IsLinked img b us
IsLinked-frame img a b us p ne out same r = record {
  ring = record {
    chain =
        TaskChain-frame a b img.init_task img.init_task us
          (λ q h. ap (λ (t : TaskStruct). t.next_task) (same q (λ e. ground arith))) r.ring.chain;
    distinct = r.ring.distinct;
    init_out = r.ring.init_out;
  };
  last = rw (same img.init_task (λ e. ne (sym e))) r.last;
}

half_positive : (c : ℤ) → pos 0 ≤ℤ c → pos 0 ≤ℤ half_ℤ c
half_positive (pos n) h = omega arith
half_positive (negsuc n) h = absurd (omega arith)

half_next_positive : (c : ℤ) → pos 0 ≤ℤ c → pos 0 ≤ℤ half_ℤ (c +ℤ pos 1)
half_next_positive (pos n) h = ground arith
half_next_positive (negsuc n) h = absurd (omega arith)

pub apart-in : (p q : ℕ) (ts : List ℕ) → has p ts ≡ false → has q ts ≡ true → q ≢ p
apart-in p q ts out h e = let w : has p ts ≡ true = rw e at h in cc

module _ (img : Image) (s : Kernel) (ts us : List ℕ) (p : ℕ) (inv : IsRunnable img s ts us)
    (apart : IsApart img s ts us p) where
  pub Unforked-IsRunnable : (t : Kernel) → Unforked s p t → IsRunnable img t ts us
  Unforked-IsRunnable t un =
      let cpu_same : t.cpu ≡ s.cpu = ap (λ (k : Kernel). k.cpu) un.rest in
      let cur : current t ≡ current s = rw cpu_same in
      let kept : (q : ℕ) → has q ts ≡ true → t.tasks q ≡ s.tasks q =
        λ q h. un.others q (apart-in p q ts apart.queued h) in
      let kept_cur : t.tasks (current s) ≡ s.tasks (current s) =
        un.others (current s) (λ e. apart.running (sym e)) in
      let linked =
        IsLinked-frame img s.tasks t.tasks us p apart.init_task apart.linked un.others inv.linked in
      record {
        balanced = record {
          preemptible = rw (cpu_same, kept_cur) inv.balanced.preemptible;
          waiting = λ q h ne. rw (kept q h) (inv.balanced.waiting q h (rw cpu_same at ne));
        };
        ready = record {
          queue = record {
            ring = rw (ap (λ (k : Kernel). k.links) un.rest) inv.ready.queue.ring;
            counted = ap (λ (k : Kernel). k.nr_running) un.rest ∙ inv.ready.queue.counted;
          };
          some_task = inv.ready.some_task;
          some_queued = inv.ready.some_queued;
          ring = linked.ring;
          in_ring = inv.ready.in_ring;
          counters = λ q h. rw (kept q h) (inv.ready.counters q h);
          priorities = λ q h. rw (kept q h) (inv.ready.priorities q h);
        };
        linked = linked;
        counter = rw (cpu_same, kept_cur) inv.counter;
      }

  module _ (pid : ℕ) (t : Kernel) (f : Forked img s p pid t) where
    Forked-IsLinked : IsLinked img t.tasks (us ++ p ∷ [])
    Forked-IsLinked =
        let zeroed = update s.tasks p zero_task in
        let base : IsLinked img zeroed us =
          IsLinked-frame img s.tasks zeroed us p apart.init_task apart.linked (λ q h. ground arith)
            inv.linked in
        let r = set_links-IsLinked img p zeroed us base apart.init_task apart.linked in
        record {
          ring = record {
            chain =
                TaskChain-ext (set_links img p zeroed) t.tasks img.init_task img.init_task
                  (us ++ p ∷ []) f.linked r.ring.chain;
            distinct = r.ring.distinct;
            init_out = r.ring.init_out;
          };
          last = f.linked_back img.init_task ∙ r.last;
        }

    Forked-counter : (q : ℕ) → q ≢ p → pos 0 ≤ℤ (s.tasks q).counter → pos 0 ≤ℤ (t.tasks q).counter
    Forked-counter q ne h = elim (Bool-cases (q == current s)) [
      | inl e ↦
          rw ((==_iff q (current s)).0 e, f.parent)
            (half_positive (s.tasks (current s)).counter inv.counter)
      | inr n ↦ rw (f.counters q ne (λ e. cc (n, (==_iff q (current s)).1 e))) h
    ]

    Forked-IsQueue : length ts + 1 < 2 ^ 32 → IsQueue img t (p ∷ ts)
    Forked-IsQueue small =
        let q = enqueue_task-IsQueue img s p ts inv.ready.queue apart.queued apart.rq_head small in
        let links_are : t.links ≡ (enqueue_task img p s).links =
          ap (λ (k : Kernel). k.links) f.rest ∙ (unfold enqueue_task in refl) in
        let count_is : t.nr_running ≡ (enqueue_task img p s).nr_running =
          ap (λ (k : Kernel). k.nr_running) f.rest ∙ (unfold enqueue_task in refl) in
        record { ring = rw links_are q.ring; counted = count_is ∙ q.counted }

    new_waiting :
        p % page_size ≡ 0
        → ((t.tasks p).preempt_count ≡ waiting_count img (t.tasks p).cpu_context)
          × OnStack p (t.tasks p).cpu_context
    new_waiting aligned = (
      f.preempt_count ∙ (ground (arith, f.entry)),
      record { aligned = aligned; above = omega (arith, f.stack); below = omega (arith, f.stack) },
    )

    pub Forked-IsRunnable :
        p % page_size ≡ 0 → length ts + 1 < 2 ^ 32 → IsRunnable img t (p ∷ ts) (us ++ p ∷ [])
    Forked-IsRunnable aligned small =
        let cpu_same : t.cpu ≡ s.cpu = ap (λ (k : Kernel). k.cpu) f.rest in
        let linked = Forked-IsLinked in
        let queued : (q : ℕ) → has q (p ∷ ts) ≡ true → (q ≡ p) ⊎ ((has q ts ≡ true) × (q ≢ p)) =
          λ q h. elim (Bool-cases (q == p)) [
            | inl e ↦ inl ((==_iff q p).0 e)
            | inr n ↦ inr (ground arith, λ e. cc (n, (==_iff q p).1 e))
          ] in
        let away : current s ≢ p = λ e. apart.running (sym e) in
        record {
          balanced = record {
            preemptible = rw (cpu_same, f.others (current s) away) inv.balanced.preemptible;
            waiting = λ q h ne. elim (queued q h) [
              | inl e ↦ rw e (new_waiting aligned)
              | inr (old, other) ↦
                  rw (f.others q other) (inv.balanced.waiting q old (rw cpu_same at ne))
            ];
          };
          ready = record {
            queue = Forked-IsQueue small;
            some_task = p;
            some_queued = ground arith;
            ring = linked.ring;
            in_ring = λ q h. elim (queued q h) [
              | inl e ↦ rw (has-append q p us) (ground arith)
              | inr (old, other) ↦ rw (has-append q p us, inv.ready.in_ring q old)
            ];
            counters = λ q h. elim (queued q h) [
              | inl e ↦
                  rw (e, f.counter) (half_next_positive (s.tasks (current s)).counter inv.counter)
              | inr (old, other) ↦ Forked-counter q other (inv.ready.counters q old)
            ];
            priorities = λ q h. elim (queued q h) [
              | inl e ↦ rw (e, f.priority) (omega arith)
              | inr (old, other) ↦ rw (f.others q other) (inv.ready.priorities q old)
            ];
          };
          linked = linked;
          counter = rw cpu_same (Forked-counter (current s) away inv.counter);
        }

-- The task `p` has the number `pid`, that of the first empty slot, which it now has.
pub record IsNumbered (s : Kernel) (p pid : ℕ) (t : Kernel) : Type 0 where
  pub number : (t.tasks p).pid ≡ pid
  pub first_slot : IsFirst s.g_task 0 nr_tasks pid
  pub slot : t.g_task ≡ update s.g_task pid p

pub do_fork-IsNumbered :
    (img : Image) (clone_flags stack arg : ℕ) (s : Kernel) (ts us : List ℕ)
    → IsRunnable img s ts us
    → IsApart img s ts us (page img clone_flags stack arg s)
    → length ts + 1 < 2 ^ 32
    → Returns (do_fork img clone_flags stack arg s) (λ r.
      ((pid : ℕ) × (r.0 ≡ pos pid)
        × IsNumbered s (page img clone_flags stack arg s) pid r.1
        × IsRunnable img r.1
            (page img clone_flags stack arg s ∷ ts)
            (us ++ page img clone_flags stack arg s ∷ []))
      ⊎ ((r.0 ≡ negsuc 0) × IsRunnable img r.1 ts us))
do_fork-IsNumbered img clone_flags stack arg s ts us inv apart small =
    let p = page img clone_flags stack arg s in
    let (r, runs, outcome) = do_fork_cases img clone_flags stack arg s apart.running in
    (
      r,
      runs,
      elim outcome [
        | inl (pid, e, ne, f) ↦ inl (
          pid,
          e,
          record {
            number = f.pid_set;
            first_slot = f.first_slot;
            slot = ap (λ (k : Kernel). k.g_task) f.rest;
          },
          Forked-IsRunnable img s ts us p inv apart pid r.1 f (get_free_page_bounds s.pages ne).1
              small,
        )
        | inr (why, e, un) ↦ inr (e, Unforked-IsRunnable img s ts us p inv apart r.1 un)
      ],
    )

-- In a kernel in which the scheduler can run, `do_fork` returns in such a kernel again, whatever its
-- arguments are: with the new task first in the queue and last in the ring of tasks, or, where it
-- returns -1, with the queue and the ring as they were. The new page must lie apart from all tasks,
-- and one more thread must not make the queue 2 ^ 32 long.
pub do_fork-IsRunnable :
    (img : Image) (clone_flags stack arg : ℕ) (s : Kernel) (ts us : List ℕ)
    → IsRunnable img s ts us
    → IsApart img s ts us (page img clone_flags stack arg s)
    → length ts + 1 < 2 ^ 32
    → Returns (do_fork img clone_flags stack arg s) (λ r.
      ((pid : ℕ) × (r.0 ≡ pos pid)
        × IsRunnable img r.1
            (page img clone_flags stack arg s ∷ ts)
            (us ++ page img clone_flags stack arg s ∷ []))
      ⊎ ((r.0 ≡ negsuc 0) × IsRunnable img r.1 ts us))
do_fork-IsRunnable img clone_flags stack arg s ts us inv apart small =
    let (r, runs, outcome) = do_fork-IsNumbered img clone_flags stack arg s ts us inv apart small in
    (
      r,
      runs,
      elim outcome [
        | inl (pid, e, numbered, after) ↦ inl (pid, e, after)
        | inr failed ↦ inr failed
      ],
    )
