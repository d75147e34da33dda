-- ===== src/Tests/Switch.antt =====
-- Tests of kernel/sched.c.
use arm64os.Common.{ℕ, ◌≡◌, refl, ◌≢◌, arith, Returns, inl, inr}
use arm64os.Kernel.{current}
use arm64os.Sched.{switch_to, schedule, preempt_schedule_irq}
use arm64os.Sched.Switch.{OnStack, switch_to_lem, switch_to-switch_to}
use arm64os.Sched.Preempt.{IsBalanced}
use arm64os.Sched.Outcome.{IsReady, IsScheduled}
use arm64os.Sched.Schedule.{schedule-IsScheduled, preempt_schedule_irq-IsScheduled}
use arm64os.Tests.{image, first, second, two_threads}
use arm64os.Tests.Queue.{
  queue, ring, two_threads-IsQueue, two_threads-IsTaskRing, queue-cases, queued-ring,
  queued-counter, queued-priority,
}

pub second-OnStack : OnStack second (two_threads.tasks second).cpu_context
second-OnStack = record { aligned = refl; above = omega arith; below = omega arith }

switch_to_lem_example :
    let t = (switch_to image first second two_threads).1 in
    (current t ≡ second)
    × (t.cpu ≡ (two_threads.tasks second).cpu_context)
    × (t.tasks first
        ≡ record (two_threads.tasks first) { cpu_context = record (two_threads.cpu) { pc = 200 } })
    × ((q : ℕ) → q ≢ first → t.tasks q ≡ two_threads.tasks q)
switch_to_lem_example = switch_to_lem image first second two_threads (omega arith) second-OnStack

switch_to-switch_to_example :
    let t = (switch_to image second first (switch_to image first second two_threads).1).1 in
    (t.cpu ≡ record (two_threads.cpu) { pc = 200 }) × (current t ≡ first)
switch_to-switch_to_example =
    switch_to-switch_to image second two_threads (omega arith) second-OnStack

pub two_threads-IsBalanced : IsBalanced image queue two_threads
two_threads-IsBalanced = record {
  preemptible = refl;
  waiting = λ q h ne. elim (queue-cases q h) [
    | inl e ↦ rw e (refl, second-OnStack)
    | inr e ↦ absurd (ne e)
  ];
}

pub two_threads-IsReady : IsReady image two_threads queue ring
two_threads-IsReady = record {
  queue = two_threads-IsQueue;
  some_task = first;
  some_queued = refl;
  ring = two_threads-IsTaskRing;
  in_ring = queued-ring;
  counters = queued-counter;
  priorities = queued-priority;
}

schedule-IsScheduled_example :
    Returns (schedule image 3 2 two_threads) (IsScheduled image queue ring two_threads)
schedule-IsScheduled_example =
    schedule-IsScheduled image queue ring (omega arith) 3 0 (omega arith, omega arith) two_threads
      two_threads-IsBalanced two_threads-IsReady refl

preempt_schedule_irq-IsScheduled_example :
    Returns (preempt_schedule_irq image 3 2 two_threads) (IsScheduled image queue ring two_threads)
preempt_schedule_irq-IsScheduled_example =
    preempt_schedule_irq-IsScheduled image queue ring (omega arith) 3 0 (omega arith, omega arith)
      two_threads two_threads-IsBalanced two_threads-IsReady refl
