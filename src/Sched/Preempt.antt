-- ===== src/Sched/Preempt.antt =====
-- What holds of the threads whenever one of them runs outside of the scheduler.
use arm64os.Common.{
  ℕ, ◌+◌, ◌%◌, ◌^◌, ◌≡◌, refl, ◌≢◌, true, false, List, arith, sym, ◌∙◌, Bool-cases, inl, inr,
  ==_iff, ◌==◌, if◌then◌else◌, update,
}
use mathlib.Core.Path.{subst}
use arm64os.Common.Int.{ℤ, pos}
use arm64os.ListHead.Ring.{has}
use arm64os.Kernel.{
  TaskStruct, CpuContext, Image, Kernel, Caller, from_schedule, from_preempt_schedule_irq, current,
}
use arm64os.Sched.{
  preempt_disable, preempt_enable, raw_local_irq_disable, schedule_tail, finish, resume,
  clear_task_resched, switch_to, switch_from,
}
use arm64os.Sched.Switch.{OnStack, current-OnStack, OnStack-of_sp, switch_to_lem}

-- The preemption count of a thread that waits: 1 if it waits inside of `schedule` or
-- `preempt_schedule_irq`, which disabled preemption, and 0 if it has not run yet.
abbrev pub waiting_count : Image → CpuContext → ℤ
waiting_count img c = if c.pc == img.ret_from_fork then pos 0 else pos 1

-- Each of the threads `ts` but `running` waits with the count of its kind, on its own stack, in a
-- context that a new thread or `switch_to` left.
abbrev pub Waiting : Image → (running : ℕ) → List ℕ → (ℕ → TaskStruct) → Type 0
Waiting img running ts tasks =
    (q : ℕ)
    → has q ts ≡ true
    → q ≢ running
    → ((tasks q).preempt_count ≡ waiting_count img (tasks q).cpu_context)
      × OnStack q (tasks q).cpu_context

-- The running thread may be preempted, and the others wait.
pub record IsBalanced (img : Image) (ts : List ℕ) (s : Kernel) : Type 0 where
  pub preemptible : (s.tasks (current s)).preempt_count ≡ pos 0
  pub waiting : Waiting img (current s) ts s.tasks

-- The same inside of the scheduler, where preemption is disabled.
pub record IsScheduling (img : Image) (ts : List ℕ) (s : Kernel) : Type 0 where
  pub disabled : (s.tasks (current s)).preempt_count ≡ pos 1
  pub waiting : Waiting img (current s) ts s.tasks

-- A thread that the switch has just gone to: the count is still that of a waiting thread.
record IsArrived (img : Image) (ts : List ℕ) (s : Kernel) : Type 0 where
  count : (s.tasks (current s)).preempt_count ≡ waiting_count img s.cpu
  waiting : Waiting img (current s) ts s.tasks

module _ (img : Image) (ts : List ℕ) where
  preempt_enable-IsBalanced :
      (s : Kernel) → IsScheduling img ts s → IsBalanced img ts (preempt_enable s)
  unfolding preempt_enable
  preempt_enable-IsBalanced s inv = record {
    preemptible = rw inv.disabled (ground arith);
    waiting = λ q h ne. ground (arith, inv.waiting q h ne);
  }

  pub preempt_disable-IsScheduling :
      (s : Kernel) → IsBalanced img ts s → IsScheduling img ts (preempt_disable s)
  unfolding preempt_disable
  preempt_disable-IsScheduling s inv = record {
    disabled = ground (arith, inv.preemptible);
    waiting = λ q h ne. ground (arith, inv.waiting q h ne);
  }

  schedule_tail-IsScheduling :
      (s : Kernel) → IsScheduling img ts s → IsScheduling img ts (schedule_tail s)
  unfolding schedule_tail
  schedule_tail-IsScheduling s inv = record { disabled = inv.disabled; waiting = inv.waiting }

  finish-IsBalanced :
      (caller : Caller) (s : Kernel)
      → IsScheduling img ts s
      → IsBalanced img ts (finish caller s) × (current (finish caller s) ≡ current s)
  finish-IsBalanced from_schedule s inv =
      unfold finish in (preempt_enable-IsBalanced s inv, unfold preempt_enable in refl)
  finish-IsBalanced from_preempt_schedule_irq s inv =
      unfold finish raw_local_irq_disable in
      (
        preempt_enable-IsBalanced (record s { irq_enabled = false })
            (record { disabled = inv.disabled; waiting = inv.waiting }),
        unfold preempt_enable in refl,
      )

  resume-IsBalanced :
      (s : Kernel)
      → IsArrived img ts s
      → IsBalanced img ts (resume img s) × (current (resume img s) ≡ current s)
  resume-IsBalanced s inv = elim (Bool-cases (s.cpu.pc == img.ret_from_fork)) [
    | inl new ↦
        unfold resume schedule_tail in
        rw new (record { preemptible = inv.count ∙ (rw new); waiting = inv.waiting }, refl)
    | inr old ↦
        let s1 : Kernel = record s {
          nr_switches = (s.nr_switches + 1) % 2 ^ 64;
          curr = current s;
        } in
        let there : IsScheduling img ts s1 = record {
          disabled = inv.count ∙ (rw old);
          waiting = inv.waiting;
        } in
        let done =
          finish-IsBalanced (s.callers (current s)) (schedule_tail s1)
            (schedule_tail-IsScheduling s1 there) in
        unfold resume in rw old (done.0, done.1 ∙ (unfold schedule_tail in refl))
  ]

  clear_task_resched-IsScheduling :
      (p : ℕ) (s : Kernel) → IsScheduling img ts s → IsScheduling img ts (clear_task_resched p s)
  unfolding clear_task_resched
  clear_task_resched-IsScheduling p s inv = record {
    disabled = ground (arith, inv.disabled);
    waiting = λ q h ne. ground (arith, inv.waiting q h ne);
  }

  switch_to-IsArrived :
      (next : ℕ) (s : Kernel)
      → img.ret_from_fork ≢ img.switch_return
      → has next ts ≡ true
      → next ≢ current s
      → IsScheduling img ts s
      → IsArrived img ts (switch_to img (current s) next s).1
        × (current (switch_to img (current s) next s).1 ≡ next)
  switch_to-IsArrived next s apart queued ne inv =
      let was = inv.waiting next queued ne in
      let sw = switch_to_lem img (current s) next s (λ e. ne (sym e)) was.1 in
      let u = (switch_to img (current s) next s).1 in
      let kept : u.tasks next ≡ s.tasks next = sw.3 next ne in
      (
        record {
          count = rw (sw.0, kept, sw.1) was.0;
          waiting = λ q h other. elim (Bool-cases (q == current s)) [
            | inl e ↦
                let p : q ≡ current s = (==_iff q (current s)).0 e in
                rw (p, sw.2)
                  (inv.disabled ∙ (ground (arith, apart)), OnStack-of_sp (current-OnStack s))
            | inr n ↦
                let away : q ≢ current s = λ e. cc (n, (==_iff q (current s)).1 e) in
                rw (sw.3 q away) (inv.waiting q h away)
          ];
        },
        sw.0,
      )

  -- On a queued thread that waits, or on the running one itself, `switch_from` ends with that thread
  -- running, and again balanced.
  pub switch_from-IsBalanced :
      (caller : Caller) (next : ℕ) (s : Kernel)
      → img.ret_from_fork ≢ img.switch_return
      → has next ts ≡ true
      → IsScheduling img ts s
      → IsBalanced img ts (switch_from img caller (current s) next s)
        × (current (switch_from img caller (current s) next s) ≡ next)
  unfolding switch_from
  switch_from-IsBalanced caller next s apart queued inv =
      let s1 = clear_task_resched (current s) s in
      let inv1 = clear_task_resched-IsScheduling (current s) s inv in
      let same : current s1 ≡ current s = unfold clear_task_resched in refl in
      let tail : current (schedule_tail s1) ≡ current s1 = unfold schedule_tail in refl in
      elim (Bool-cases (next == current s)) [
        | inl self ↦
            let done =
              finish-IsBalanced caller (schedule_tail s1) (schedule_tail-IsScheduling s1 inv1) in
            rw self (done.0, done.1 ∙ tail ∙ same ∙ sym ((==_iff next (current s)).0 self))
        | inr other ↦
            let away : next ≢ current s = λ e. cc (other, (==_iff next (current s)).1 e) in
            let s2 : Kernel = record s1 { callers = update s1.callers (current s) caller } in
            let inv2 : IsScheduling img ts s2 = record {
              disabled = inv1.disabled;
              waiting = inv1.waiting;
            } in
            let arrived = switch_to-IsArrived next s2 apart queued (λ e. away (e ∙ same)) inv2 in
            let done = resume-IsBalanced (switch_to img (current s2) next s2).1 arrived.0 in
            rw other (
              subst
                (λ p.
                  IsBalanced img ts (resume img (switch_to img p next s2).1)
                  × (current (resume img (switch_to img p next s2).1) ≡ next))
                same (done.0, done.1 ∙ arrived.1))
      ]
