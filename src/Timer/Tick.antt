-- ===== src/Timer/Tick.antt =====
-- The timer, from its start to an interrupt.
use arm64os.Common.{
  ℕ, ◌+◌, ◌*◌, ◌/◌, ◌%◌, ◌^◌, ◌≡◌, ◌≢◌, refl, arith, sym, ◌∙◌, some, ok, Returns, ◌∷◌, true, ◌==◌,
}
use arm64os.Common.Int.{ℤ}
use arm64os.Sched.{tick_handle_periodic}
use arm64os.Irq.{IrqState, writel}
use arm64os.Irq.Chip.{gicv2_chip}
use arm64os.Irq.Gic.{handle_irq}
use arm64os.Irq.Request.{request_irq-requested}
use arm64os.Irq.Handle.{generic_handle_irq-eoi, handle_irq-handled}
use arm64os.Timer.{TimerImage, timer_init, run_timer, handle_timer_irq, generic_timer_irq}

-- What an interrupt of the timer does in a state: the running thread is charged with a tick, the
-- countdown begins again, and the end of the interrupt is signalled.
abbrev pub after_tick : IrqState → IrqState
after_tick u = writel (u.irq_desc 30).hwirq (u.gic_data.raw_cpu_base + 0x10) (record u {
  timer = record (u.timer) { cntp_tval_el0 = u.timer.arch_timer_rate };
  kernel = tick_handle_periodic u.kernel;
})

-- The state after `timer_init`: the countdown runs, from the ticks of 1 / 250 s; the interrupt is
-- enabled, at the distributor and then at the processor; the handler is registered; and all else is as
-- it was.
pub record IsStarted (img : TimerImage) (cntfrq : ℕ) (s t : IrqState) : Type 0 where
  pub enabled : t.timer.cntp_ctl_el0 ≡ 1
  pub rate : t.timer.arch_timer_rate ≡ cntfrq % 2 ^ 32 / 250
  pub counts : t.timer.cntp_tval_el0 ≡ cntfrq % 2 ^ 32 / 250
  pub writes :
      t.writes
      ≡ (0xFF800040, 2)
        ∷ (
          s.gic_data.raw_dist_base + 0x100 + (s.irq_desc 30).hwirq / 32 * 4,
          2 ^ ((s.irq_desc 30).hwirq % 32),
        )
        ∷ s.writes
  pub handler : (t.irq_desc 30).handler ≡ img.handler
  pub chip : (t.irq_desc 30).chip ≡ some gicv2_chip
  pub others : (i : ℕ) → i ≢ 30 → t.irq_desc i ≡ s.irq_desc i
  pub kernel : t.kernel ≡ s.kernel

module _ (img : TimerImage) (other : (handler virq param : ℕ) → IrqState → ℤ × IrqState)
    (some_handler : img.handler ≢ 0) where
  pub handle_irq-after_tick :
      (u : IrqState)
      → (u.irq_desc 30).handler ≡ img.handler
      → (u.irq_desc 30).chip ≡ some gicv2_chip
      → handle_irq (run_timer img other) 30 u ≡ ok (after_tick u)
  unfolding run_timer
  handle_irq-after_tick u registered chip =
      let run = run_timer img other in
      let same : ((u.irq_desc 30).handler == img.handler) ≡ true = ground (arith, registered) in
      let called : run (u.irq_desc 30).handler 30 (u.irq_desc 30).param u ≡ handle_timer_irq u =
        unfold run_timer in rw same in
      let given : (u.irq_desc 30).handler ≢ 0 = λ e. some_handler (sym registered ∙ e) in
      handle_irq-handled run 30 u (omega arith) (omega arith)
        (generic_handle_irq-eoi run 30 u (omega arith) given (rw called chip))
      ∙ (rw called)

  -- On a controller that has mapped the interrupt of the timer, `timer_init` starts the timer with the
  -- rate of 250 ticks in a second, enables its interrupt and registers its handler. In every state `u`
  -- that has that handler and that rate, an arrival of the interrupt calls `tick_handle_periodic` once,
  -- starts the countdown again from the rate, and signals the end of the interrupt, and does nothing else.
  pub timer_init-IsStarted :
      (cntfrq : ℕ) (s u : IrqState)
      → (s.irq_desc 30).chip ≡ some gicv2_chip
      → (u.irq_desc 30).handler ≡ img.handler
      → (u.irq_desc 30).chip ≡ some gicv2_chip
      → u.timer.arch_timer_rate ≡ cntfrq % 2 ^ 32 / 250
      → Returns (timer_init img cntfrq s) (λ out. IsStarted img cntfrq s out.1)
        × (handle_irq (run_timer img other) 30 u ≡ ok (after_tick u))
        × ((after_tick u).timer.cntp_tval_el0 ≡ cntfrq % 2 ^ 32 / 250)
  unfolding timer_init
  timer_init-IsStarted cntfrq s u chip registered chip_u rate =
      let asked =
        request_irq-requested generic_timer_irq img.handler img.core_timer 0
          (record s {
            timer = record {
              arch_timer_rate = cntfrq % 2 ^ 32 / 250;
              cntp_ctl_el0 = 1;
              cntp_tval_el0 = cntfrq % 2 ^ 32 / 250;
            };
          })
          (omega arith) some_handler chip in
      (
        rw asked (
          _,
          refl,
          record {
            enabled = refl;
            rate = refl;
            counts = refl;
            writes = refl;
            handler = refl;
            chip = chip;
            others = λ i ne. ground (arith, ne);
            kernel = refl;
          },
        ),
        handle_irq-after_tick u registered chip_u,
        rate,
      )
