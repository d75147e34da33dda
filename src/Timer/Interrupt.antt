-- ===== src/Timer/Interrupt.antt =====
-- An interrupt of the timer, from kernel/irq.c down to the time of the running thread.
use arm64os.Common.{
  ℕ, ◌+◌, ◌-◌, ◌^◌, ◌≡◌, ◌≢◌, refl, arith, ap, sym, ◌∙◌, ltb, if◌then◌else◌, some, ok, Returns,
  deref, ◌>>=◌, update, ◌∷◌,
}
use arm64os.Common.Int.{ℤ, pos, negsuc, ◌+ℤ◌, ◌-ℤ◌}
use arm64os.Kernel.{Kernel, current, TaskStruct}
use mathlib.Core.Path.{subst}
use arm64os.SchedNop.{task_tick}
use arm64os.SchedNop.Tick.{task_tick_lem, task_tick_other}
use arm64os.Sched.{tick_handle_periodic, preempt_add, preempt_sub}
use arm64os.Irq.{IrqState, gic_handle_irq}
use arm64os.Irq.Chip.{gicv2_chip, gic_cpu_eoi}
use arm64os.Irq.Gic.{irq_handler, handle_irq}
use arm64os.Timer.{TimerImage, run_timer, generic_timer_irq}
use arm64os.Timer.Tick.{handle_irq-after_tick}

add_back : (z : ℤ) (n : ℕ) → z +ℤ pos n -ℤ pos n ≡ z
add_back (pos m) n = ground arith
add_back (negsuc m) n = ground arith

update_this : (m : ℕ → TaskStruct) (p : ℕ) (t : TaskStruct) → update m p t p ≡ t
update_this m p t = ground arith

update_that : (m : ℕ → TaskStruct) (p q : ℕ) (t : TaskStruct) → q ≢ p → update m p t q ≡ m q
update_that m p q t h = ground (arith, h)

-- The thread `p` has one tick less, is to be preempted where that was its last, and can be preempted as
-- before; nothing else of it and no other thread is changed.
pub record IsCharged (p c : ℕ) (k k' : Kernel) : Type 0 where
  pub same_thread : current k' ≡ p
  pub time : (k'.tasks p).counter ≡ pos (c - 1)
  pub resched : (k'.tasks p).need_resched ≡ (if ltb 1 c then (k.tasks p).need_resched else 1)
  pub preempt : (k'.tasks p).preempt_count ≡ (k.tasks p).preempt_count
  pub others : (q : ℕ) → q ≢ p → k'.tasks q ≡ k.tasks q

module _ (n : ℕ) (k : Kernel) where
  enter : TaskStruct → TaskStruct
  enter t = record t { preempt_count = t.preempt_count +ℤ pos n }

  leave : TaskStruct → TaskStruct
  leave t = record t { preempt_count = t.preempt_count -ℤ pos n }

  add_current : current (preempt_add n k) ≡ current k
  unfolding preempt_add
  add_current = refl

  sub_current : current (preempt_sub n k) ≡ current k
  unfolding preempt_sub
  sub_current = refl

  add_this : (preempt_add n k).tasks (current k) ≡ enter (k.tasks (current k))
  unfolding preempt_add enter
  add_this = update_this k.tasks (current k) (record (k.tasks (current k)) {
    preempt_count = (k.tasks (current k)).preempt_count +ℤ pos n;
  })

  sub_this : (preempt_sub n k).tasks (current k) ≡ leave (k.tasks (current k))
  unfolding preempt_sub leave
  sub_this = update_this k.tasks (current k) (record (k.tasks (current k)) {
    preempt_count = (k.tasks (current k)).preempt_count -ℤ pos n;
  })

  add_other : (q : ℕ) → q ≢ current k → (preempt_add n k).tasks q ≡ k.tasks q
  unfolding preempt_add
  add_other q h = update_that k.tasks (current k) q _ h

  sub_other : (q : ℕ) → q ≢ current k → (preempt_sub n k).tasks q ≡ k.tasks q
  unfolding preempt_sub
  sub_other q h = update_that k.tasks (current k) q _ h

tick_current : (p : ℕ) (k : Kernel) → current (task_tick p k) ≡ current k
unfolding task_tick
tick_current p k = ground arith

tick_preempt :
    (p : ℕ) (k : Kernel) → ((task_tick p k).tasks p).preempt_count ≡ (k.tasks p).preempt_count
unfolding task_tick
tick_preempt p k = ground arith

enter_fields :
    (n : ℕ) (k : Kernel) (t : TaskStruct)
    → ((enter n k t).counter ≡ t.counter)
      × ((enter n k t).need_resched ≡ t.need_resched)
      × ((enter n k t).preempt_count ≡ t.preempt_count +ℤ pos n)
unfolding enter
enter_fields n k t = (refl, refl, refl)

leave_fields :
    (n : ℕ) (k : Kernel) (t : TaskStruct)
    → ((leave n k t).counter ≡ t.counter)
      × ((leave n k t).need_resched ≡ t.need_resched)
      × ((leave n k t).preempt_count ≡ t.preempt_count -ℤ pos n)
unfolding leave
leave_fields n k t = (refl, refl, refl)

module _ (n c : ℕ) (k : Kernel) (h : (k.tasks (current k)).counter ≡ pos c) where
  abbrev entered : Kernel
  entered = preempt_add n k

  abbrev ticked : Kernel
  ticked = task_tick (current k) entered

  left-IsCharged : IsCharged (current k) c k (preempt_sub n ticked)
  left-IsCharged =
      let p = current k in
      let here : current ticked ≡ p = tick_current p entered ∙ add_current n k in
      let (a_counter, a_resched, a_preempt) = enter_fields n k (k.tasks p) in
      let (l_counter, l_resched, l_preempt) = leave_fields n ticked (ticked.tasks p) in
      let there = sub_this n ticked in
      let this : (preempt_sub n ticked).tasks p ≡ leave n ticked (ticked.tasks p) =
        rw here at there in
      let start : (entered.tasks p).counter ≡ pos c =
        ap (λ t. t.counter) (add_this n k) ∙ a_counter ∙ h in
      let (time, resched) = task_tick_lem p c entered start in
      record {
        same_thread = sub_current n ticked ∙ here;
        time = ap (λ t. t.counter) this ∙ l_counter ∙ time;
        resched =
            ap (λ t. t.need_resched) this
            ∙ l_resched
            ∙ resched
            ∙ ap (λ r. if ltb 1 c then r else 1)
                (ap (λ t. t.need_resched) (add_this n k) ∙ a_resched);
        preempt =
            ap (λ t. t.preempt_count) this
            ∙ l_preempt
            ∙ ap (λ z. z -ℤ pos n)
                (tick_preempt p entered ∙ ap (λ t. t.preempt_count) (add_this n k) ∙ a_preempt)
            ∙ add_back (k.tasks p).preempt_count n;
        others = λ q other.
            sub_other n ticked q (λ same. other (same ∙ here))
            ∙ task_tick_other p q entered other
            ∙ add_other n k q other;
      }

  tick_handle_periodic-IsCharged :
      IsCharged (current k) c k (preempt_sub n (tick_handle_periodic entered))
  unfolding tick_handle_periodic
  tick_handle_periodic-IsCharged =
      subst (λ q. IsCharged (current k) c k (preempt_sub n (task_tick q entered)))
        (sym (add_current n k)) left-IsCharged

-- The device writes, the countdown and the kernel behind an interrupt of the timer.
pub record IsTick (c : ℕ) (s u : IrqState) : Type 0 where
  pub signalled :
      u.writes
      ≡ (s.gic_data.raw_cpu_base + gic_cpu_eoi, (s.irq_desc generic_timer_irq).hwirq) ∷ s.writes
  pub again : u.timer.cntp_tval_el0 ≡ s.timer.arch_timer_rate
  pub charges : IsCharged (current s.kernel) c s.kernel u.kernel

-- Where the timer's handler is registered with an initialised controller, an interrupt of the timer is
-- handled without a fault: the running thread has used one tick of its time, is marked for
-- rescheduling where that was the last, its preemption count is what it was before, no other thread is
-- touched, the countdown begins again from the rate, and the one write to a device signals the end of
-- the interrupt.
pub irq_handler-IsTick :
    (img : TimerImage) (other : (handler virq param : ℕ) → IrqState → ℤ × IrqState) (c : ℕ)
    (s : IrqState)
    → img.handler ≢ 0
    → s.arch_irq_handler ≡ some gic_handle_irq
    → (s.irq_desc generic_timer_irq).handler ≡ img.handler
    → (s.irq_desc generic_timer_irq).chip ≡ some gicv2_chip
    → (s.kernel.tasks (current s.kernel)).counter ≡ pos c
    → Returns (irq_handler (run_timer img other) generic_timer_irq s) (IsTick c s)
unfolding irq_handler
irq_handler-IsTick img other c s some_handler arch registered chip time =
    let s1 = record s { kernel = preempt_add (2 ^ 8) s.kernel } in
    let runs = handle_irq-after_tick img other some_handler s1 registered chip in
    let behind : IrqState → IrqState = λ u. record u { kernel = preempt_sub (2 ^ 8) u.kernel } in
    let handled : irq_handler (run_timer img other) generic_timer_irq s
        ≡ (handle_irq (run_timer img other) generic_timer_irq s1 >>= (λ u. ok (behind u))) =
      ap
        (λ a. deref a >>= (λ handler.
          handle_irq (run_timer img other) generic_timer_irq s1 >>= (λ u. ok (behind u))))
        arch in
    (
      _,
      handled ∙ ap (λ r. r >>= (λ u. ok (behind u))) runs,
      record {
        signalled = refl;
        again = refl;
        charges = tick_handle_periodic-IsCharged (2 ^ 8) c s.kernel time;
      },
    )
