-- ===== src/Sched/Schedule.antt =====
-- `schedule` and `preempt_schedule_irq` as a whole, called on a running thread.
use arm64os.Common.{ℕ, suc, ◌<◌, ◌≡◌, refl, ◌≢◌, true, false, List, arith, ◌∙◌, length, Returns}
use arm64os.Kernel.{
  Image, Kernel, Caller, from_schedule, from_preempt_schedule_irq, task_running, current,
}
use arm64os.SchedNop.Score.{TaskChain-ext}
use arm64os.SchedNop.Pick.{pick_next_task-Picked}
use arm64os.Sched.{
  schedule_debug, raw_local_irq_disable, raw_local_irq_enable, preempt_disable, switch_from,
  schedule_from, schedule, preempt_schedule_irq,
}
use arm64os.Sched.Keeps.{rest_of}
use arm64os.Sched.Preempt.{IsBalanced, IsScheduling, preempt_disable-IsScheduling}
use arm64os.Sched.Outcome.{IsReady, IsScheduled, switch_from-IsScheduled}

module _ (img : Image) (ts us : List ℕ) (apart : img.ret_from_fork ≢ img.switch_return)
    (fuel rounds : ℕ) (enough : (length ts < fuel) × (length us < fuel)) where
  schedule_from-IsScheduled :
      (caller : Caller) (s : Kernel)
      → IsScheduling img ts s
      → IsReady img s ts us
      → (s.tasks (current s)).state ≡ task_running
      → Returns
          (schedule_from img fuel (suc (suc rounds)) caller s)
          (IsScheduled img ts us (record s { irq_enabled = false }))
  schedule_from-IsScheduled caller s inv ready running =
      let s1 : Kernel = record s { irq_enabled = false } in
      let ready1 : IsReady img s1 ts us = record {
        queue = record { ring = ready.queue.ring; counted = ready.queue.counted };
        some_task = ready.some_task;
        some_queued = ready.some_queued;
        ring = ready.ring;
        in_ring = ready.in_ring;
        counters = ready.counters;
        priorities = ready.priorities;
      } in
      let inv1 : IsScheduling img ts s1 = record {
        disabled = inv.disabled;
        waiting = inv.waiting;
      } in
      let (r, runs, p) =
        pick_next_task-Picked img s1 ts us fuel rounds ready.some_task ready1.queue
          ready.some_queued ready.ring ready.in_ring ready.counters ready.priorities enough.0
          enough.1 in
      let quiet : raw_local_irq_disable (schedule_debug (current s) s) ≡ s1 =
        unfold raw_local_irq_disable schedule_debug in rw inv.disabled in
      (
        switch_from img caller (current s) r.0 r.1,
        unfold schedule_from in rw (quiet, running, runs),
        switch_from-IsScheduled img ts us caller s1 r apart inv1 ready1 p,
      )

  -- Disabling preemption changes nothing of what the choice depends on.
  disable-IsReady : (s : Kernel) → IsReady img s ts us → IsReady img (preempt_disable s) ts us
  unfolding preempt_disable
  disable-IsReady s r = record {
    queue = record { ring = r.queue.ring; counted = r.queue.counted };
    some_task = r.some_task;
    some_queued = r.some_queued;
    ring = record {
      chain =
          TaskChain-ext s.tasks (preempt_disable s).tasks img.init_task img.init_task us
            (λ q. ground arith) r.ring.chain;
      distinct = r.ring.distinct;
      init_out = r.ring.init_out;
    };
    in_ring = r.in_ring;
    counters = λ q h. ground (arith, r.counters q h);
    priorities = λ q h. ground (arith, r.priorities q h);
  }

  -- A change of preemption counts and of the interrupt flag is none of the outcome.
  same-IsScheduled :
      (s u t : Kernel)
      → current u ≡ current s
      → ((q : ℕ) → rest_of (u.tasks q) ≡ rest_of (s.tasks q))
      → ((q : ℕ) → (u.tasks q).cpu_context ≡ (s.tasks q).cpu_context)
      → u.pages ≡ s.pages
      → u.total_forks ≡ s.total_forks
      → IsScheduled img ts us u t
      → IsScheduled img ts us s t
  same-IsScheduled s u t cur same contexts pages forks o = record {
    balanced = o.balanced;
    ready = o.ready;
    next_queued = o.next_queued;
    highest = o.highest;
    runnable = o.runnable;
    unmarked = rw cur at o.unmarked;
    kept = λ q. o.kept q ∙ same q;
    contexts = λ q ne. o.contexts q (λ e. ne (e ∙ cur)) ∙ contexts q;
    pages = o.pages ∙ pages;
    total_forks = o.total_forks ∙ forks;
  }

  -- A thread in the state TASK_RUNNING calls `schedule`, where it may be preempted, each other queued
  -- thread waits on its own stack with the preemption count that the scheduler left it, the queue
  -- holds a task and only tasks of the ring, and no queued counter or priority is negative; the entry
  -- of a new thread is not the return address of the switch. The call ends, given fuel for the
  -- lengths of the queue and the ring: a queued thread of the highest counter runs, the caller
  -- perhaps; it may be preempted again; the other threads, and the caller among them if it is queued,
  -- wait as before; the queue and the ring are the same, with no negative counter or priority in the
  -- queue; no task's state, priority or links change; and the caller's mark for rescheduling is
  -- cleared.
  pub schedule-IsScheduled :
      (s : Kernel)
      → IsBalanced img ts s
      → IsReady img s ts us
      → (s.tasks (current s)).state ≡ task_running
      → Returns (schedule img fuel (suc (suc rounds)) s) (IsScheduled img ts us s)
  unfolding preempt_disable
  schedule-IsScheduled s inv ready running =
      let d = preempt_disable s in
      let (t, runs, o) =
        schedule_from-IsScheduled from_schedule d (preempt_disable-IsScheduling img ts s inv)
          (disable-IsReady s ready) (ground (arith, running)) in
      (
        t,
        unfold schedule in runs,
        same-IsScheduled s (record d { irq_enabled = false }) t refl (λ q. ground arith)
            (λ q. ground arith) refl refl o,
      )

  -- The same holds of `preempt_schedule_irq`, which the return from an interrupt calls, as of
  -- `schedule`: under those conditions it ends with a queued thread of the highest counter running,
  -- which may be preempted, with the other threads waiting, the queue and the ring as before, and
  -- with the caller's mark for rescheduling cleared.
  pub preempt_schedule_irq-IsScheduled :
      (s : Kernel)
      → IsBalanced img ts s
      → IsReady img s ts us
      → (s.tasks (current s)).state ≡ task_running
      → Returns (preempt_schedule_irq img fuel (suc (suc rounds)) s) (IsScheduled img ts us s)
  unfolding preempt_disable raw_local_irq_enable
  preempt_schedule_irq-IsScheduled s inv ready running =
      let d : Kernel = record (preempt_disable s) { irq_enabled = true } in
      let inv1 = preempt_disable-IsScheduling img ts s inv in
      let inv2 : IsScheduling img ts d = record {
        disabled = inv1.disabled;
        waiting = inv1.waiting;
      } in
      let r = disable-IsReady s ready in
      let ready2 : IsReady img d ts us = record {
        queue = record { ring = r.queue.ring; counted = r.queue.counted };
        some_task = r.some_task;
        some_queued = r.some_queued;
        ring = r.ring;
        in_ring = r.in_ring;
        counters = r.counters;
        priorities = r.priorities;
      } in
      let (t, runs, o) =
        schedule_from-IsScheduled from_preempt_schedule_irq d inv2 ready2
          (ground (arith, running)) in
      (
        t,
        unfold preempt_schedule_irq in rw inv.preemptible runs,
        same-IsScheduled s (record d { irq_enabled = false }) t refl (λ q. ground arith)
            (λ q. ground arith) refl refl o,
      )
