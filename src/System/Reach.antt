-- ===== src/System/Reach.antt =====
-- Every step of the kernel keeps what the next one relies on.
use arm64os.Common.{ℕ, ◌<◌, ◌≡◌, List, arith, sym, ◌∙◌, Returns}
use arm64os.Kernel.{Image, Kernel}
use arm64os.Sched.{tick_handle_periodic, schedule, preempt_schedule_irq}
use arm64os.Sched.Outcome.{IsScheduled}
use arm64os.Sched.Schedule.{schedule-IsScheduled, preempt_schedule_irq-IsScheduled}
use arm64os.System.{Step, tick, yield, preempt, fork, syscall, Reaches, stay, go}
use arm64os.System.Spare.{IsPlaced, IsSystem}
use arm64os.System.Ticks.{ok-injective, tick-Ticked, Ticked-IsSystem, Scheduled-IsSystem}
use arm64os.System.Forks.{fork-IsSystem}
use arm64os.System.Calls.{call-IsSystem}

module _ (img : Image) (s : Kernel) (ts us : List ℕ) (placed : IsPlaced img)
    (inv : IsSystem img s ts us) where
  -- A call of `schedule` in such a state.
  pub schedule-ends :
      (fuel : ℕ)
      → s.nr_running < fuel
      → s.total_forks < fuel
      → Returns (schedule img fuel 2 s) (IsScheduled img ts us s)
  schedule-ends fuel a b =
      schedule-IsScheduled img ts us placed.apart fuel 0
        (omega (arith, inv.runnable.ready.queue.counted), omega (arith, inv.forks)) s
        inv.runnable.balanced inv.runnable.ready inv.current_running

  pub preempt-ends :
      (fuel : ℕ)
      → s.nr_running < fuel
      → s.total_forks < fuel
      → Returns (preempt_schedule_irq img fuel 2 s) (IsScheduled img ts us s)
  preempt-ends fuel a b =
      preempt_schedule_irq-IsScheduled img ts us placed.apart fuel 0
        (omega (arith, inv.runnable.ready.queue.counted), omega (arith, inv.forks)) s
        inv.runnable.balanced inv.runnable.ready inv.current_running

Step-IsSystem :
    (img : Image) (s t : Kernel) (ts us : List ℕ)
    → IsPlaced img
    → Step img s t
    → IsSystem img s ts us
    → (ts' : List ℕ) × (us' : List ℕ) × IsSystem img t ts' us'
Step-IsSystem img s _ ts us placed (tick _) inv =
    (ts, us, Ticked-IsSystem img s ts us inv (tick_handle_periodic s) (tick-Ticked s))
Step-IsSystem img s t ts us placed (yield fuel a b ran) inv =
    let (u, runs, o) = schedule-ends img s ts us placed inv fuel a b in
    let same : u ≡ t = ok-injective (sym runs ∙ ran) in
    (ts, us, Scheduled-IsSystem img s ts us inv t (rw same at o))
Step-IsSystem img s t ts us placed (preempt fuel a b ran) inv =
    let (u, runs, o) = preempt-ends img s ts us placed inv fuel a b in
    let same : u ≡ t = ok-injective (sym runs ∙ ran) in
    (ts, us, Scheduled-IsSystem img s ts us inv t (rw same at o))
Step-IsSystem img s t ts us placed (fork {pid} clone_flags stack arg small few ran) inv =
    fork-IsSystem img s ts us placed inv clone_flags stack arg t pid small few ran
Step-IsSystem img s t ts us placed (syscall regs low small few ran) inv =
    call-IsSystem img regs s t ts us placed inv ran low small few

-- From a state in which the scheduler can run, all tasks are pages that are used, and the running
-- thread and the queued ones are in the state TASK_RUNNING, any number of ticks, calls of `schedule`,
-- preemptions, forks and system calls with numbers below 2 ^ 31 lead to such a state again, where the
-- objects of the image lie outside of the pages to allocate.
pub Reaches-IsSystem :
    (img : Image) (s t : Kernel) (ts us : List ℕ)
    → IsPlaced img
    → IsSystem img s ts us
    → Reaches img s t
    → (ts' : List ℕ) × (us' : List ℕ) × IsSystem img t ts' us'
Reaches-IsSystem img s _ ts us placed inv (stay _) = (ts, us, inv)
Reaches-IsSystem img s u ts us placed inv (go {t} path step) =
    let (ts', us', mid) = Reaches-IsSystem img s t ts us placed inv path in
    Step-IsSystem img t u ts' us' placed step mid

-- In every state that those steps lead to, a call of `schedule` ends without a fault, given fuel above
-- the number of running threads and of forks. The queue and the ring of tasks are those from before;
-- a queued thread runs, whose counter then is the highest of the queue and not 0; each other queued
-- thread waits on its own stack with the preemption count of a thread that waits; and the saved context
-- of no thread but the caller's is changed.
pub Reaches-schedule :
    (img : Image) (s t : Kernel) (ts us : List ℕ) (fuel : ℕ)
    → IsPlaced img
    → IsSystem img s ts us
    → Reaches img s t
    → t.nr_running < fuel
    → t.total_forks < fuel
    → (ts' : List ℕ) × (us' : List ℕ) × IsSystem img t ts' us'
      × Returns (schedule img fuel 2 t) (IsScheduled img ts' us' t)
Reaches-schedule img s t ts us fuel placed inv path a b =
    let (ts', us', there) = Reaches-IsSystem img s t ts us placed inv path in
    (ts', us', there, schedule-ends img t ts' us' placed there fuel a b)
