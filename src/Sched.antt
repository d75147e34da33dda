-- ===== src/Sched.antt =====
-- kernel/sched.c, with `cpu_switch_to` of arch/arm64/kernel/entry.S, whose `ret` jumps to the new
-- thread's saved pc. One processor runs: after a switch the model goes on with what the new thread
-- executes, up to its return from the function in which it had called `__schedule`, or, for a new
-- thread, to the end of `schedule_tail` in `ret_from_fork`.
pub mod Keeps
pub mod Switch
pub mod Preempt
pub mod Outcome
pub mod Schedule
use arm64os.Common.{
  ℕ, ◌+◌, ◌%◌, ◌^◌, Bool, true, false, not, Option, none, some, ◌==◌, if◌then◌else◌, Result, ok,
  ◌>>=◌, update,
}
use arm64os.Common.Int.{ℤ, pos, ◌+ℤ◌, ◌-ℤ◌}
use arm64os.ListHead.{init_list_head}
use arm64os.Kernel.{
  TaskState, task_running, Image, Kernel, Caller, from_schedule, from_preempt_schedule_irq,
  scheduling_while_atomic, incorrect_preempt_count, current, set_task, printk,
}
use arm64os.SchedNop.{is_zero, dequeue_task, enqueue_task, task_tick, pick_next_task}

-- The methods of `nop_sched_class` are the functions of `SchedNop`, which sched.c calls through it.
unfoldable pub tick_handle_periodic : Kernel → Kernel
tick_handle_periodic s = task_tick (current s) s

-- `preempt_add` and `preempt_sub` of include/sched.h
unfoldable pub preempt_add : ℕ → Kernel → Kernel
preempt_add val s =
    let t = s.tasks (current s) in
    set_task (current s) (record t { preempt_count = t.preempt_count +ℤ pos val }) s

unfoldable pub preempt_sub : ℕ → Kernel → Kernel
preempt_sub val s =
    let t = s.tasks (current s) in
    set_task (current s) (record t { preempt_count = t.preempt_count -ℤ pos val }) s

unfoldable pub preempt_disable : Kernel → Kernel
unfolding preempt_add
preempt_disable s = preempt_add 1 s

unfoldable pub preempt_enable : Kernel → Kernel
unfolding preempt_sub
preempt_enable s = preempt_sub 1 s

-- `preempt_count() != 1`
abbrev pub in_atomic_preempt_off : ℤ → Bool
in_atomic_preempt_off c = not (is_zero (c -ℤ pos 1))

unfoldable pub schedule_debug : ℕ → Kernel → Kernel
schedule_debug p s =
    let t = s.tasks (current s) in
    if in_atomic_preempt_off t.preempt_count
    then printk (scheduling_while_atomic (s.tasks p).pid t.preempt_count) s
    else s

unfoldable pub clear_task_resched : ℕ → Kernel → Kernel
clear_task_resched p s = set_task p (record (s.tasks p) { need_resched = 0 }) s

unfoldable pub raw_local_irq_disable : Kernel → Kernel
raw_local_irq_disable s = record s { irq_enabled = false }

unfoldable pub raw_local_irq_enable : Kernel → Kernel
raw_local_irq_enable s = record s { irq_enabled = true }

-- x19 to x28, x29, sp and lr go to `prev->cpu_context`, and come from `next->cpu_context`.
unfoldable pub cpu_switch_to : (prev next : ℕ) → Kernel → Kernel
cpu_switch_to prev next s =
    let saved = set_task prev (record (s.tasks prev) { cpu_context = s.cpu }) s in
    record saved { cpu = (saved.tasks next).cpu_context }

-- The call of `cpu_switch_to` leaves its return address in lr, the field `pc` of `Kernel.cpu`. The
-- result is `last`; `none` is NULL.
unfoldable pub switch_to : Image → (prev next : ℕ) → Kernel → Option ℕ × Kernel
unfolding cpu_switch_to
switch_to img prev next s =
    let called = record s { cpu = record (s.cpu) { pc = img.switch_return } } in
    if prev == next then (none, s) else (some prev, cpu_switch_to prev next called)

unfoldable pub schedule_tail : Kernel → Kernel
unfolding raw_local_irq_enable
schedule_tail s = raw_local_irq_enable s

-- `if (prev->state)`
abbrev pub is_running : TaskState → Bool
is_running task_running = true
is_running _ = false

-- What the thread that now runs does up to the end of `__schedule` and of its caller.
unfoldable pub finish : Caller → Kernel → Kernel
finish from_schedule s = preempt_enable s
finish from_preempt_schedule_irq s = preempt_enable (raw_local_irq_disable s)

-- The part of `__schedule` behind the switch, or `ret_from_fork` up to the thread's function.
unfoldable pub resume : Image → Kernel → Kernel
resume img s =
    if s.cpu.pc == img.ret_from_fork
    then schedule_tail s
    else (let s1 = record s { nr_switches = (s.nr_switches + 1) % 2 ^ 64; curr = current s } in
        finish (s.callers (current s)) (schedule_tail s1))

-- `__schedule` behind `pick_next_task`, and what follows it.
unfoldable pub switch_from : Image → Caller → (prev next : ℕ) → Kernel → Kernel
switch_from img caller prev next s =
    let s1 = clear_task_resched prev s in
    if next == prev
    then finish caller (schedule_tail s1)
    else resume img
        (switch_to img prev next (record s1 { callers = update s1.callers prev caller })).1

-- `__schedule`, called from `caller` on the thread `current`.
unfoldable pub schedule_from : Image → (fuel rounds : ℕ) → Caller → Kernel → Result Kernel
schedule_from img fuel rounds caller s = do
  let prev = current s
  let s1 = raw_local_irq_disable (schedule_debug prev s)
  let s2 = if is_running (s1.tasks prev).state then s1 else dequeue_task prev s1
  (next, s3) ← pick_next_task img fuel rounds s2
  ok (switch_from img caller prev next s3)

unfoldable pub schedule : Image → (fuel rounds : ℕ) → Kernel → Result Kernel
schedule img fuel rounds s = schedule_from img fuel rounds from_schedule (preempt_disable s)

unfoldable pub preempt_schedule_irq : Image → (fuel rounds : ℕ) → Kernel → Result Kernel
preempt_schedule_irq img fuel rounds s =
    let count = (s.tasks (current s)).preempt_count in
    let s1 = if is_zero count then s else printk (incorrect_preempt_count count) s in
    schedule_from img fuel rounds from_preempt_schedule_irq
      (raw_local_irq_enable (preempt_disable s1))

unfoldable pub wake_up_process : Image → ℕ → Kernel → Kernel
wake_up_process img p s =
    enqueue_task img p (set_task p (record (s.tasks p) { state = task_running }) s)

unfoldable pub sched_init : Image → Kernel → Kernel
sched_init img s = record s {
  links = init_list_head img.rq_head s.links;
  nr_running = 0;
  nr_switches = 0;
  curr = 0;
}
