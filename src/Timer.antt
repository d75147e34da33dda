-- ===== src/Timer.antt =====
-- arch/arm64/mach-rpi/timer.c: the timer of the processor, whose interrupt charges the running thread.
pub mod Tick
pub mod Interrupt
use arm64os.Common.{◌==◌, if◌then◌else◌, ℕ, ◌+◌, ◌/◌, ◌%◌, ◌^◌, List, [], ◌∷◌, Result, ok, ◌>>=◌}
use arm64os.Common.Int.{ℤ, pos}
use arm64os.Common.Print.{PrintCall, say}
use arm64os.Sched.{tick_handle_periodic}
use arm64os.Irq.{IrqState, writel}
use arm64os.Irq.Core.{request_irq}

abbrev pub hz : ℕ
hz = 250

abbrev pub generic_timer_irq : ℕ
generic_timer_irq = 30

abbrev pub timer_cntrl0 : ℕ
timer_cntrl0 = 0xFF800000 + 0x40

abbrev pub cnt_pns_irq : ℕ
cnt_pns_irq = 2

-- The addresses of the handler and of the text of its name.
pub record TimerImage : Type 0 where
  pub handler : ℕ
  pub core_timer : ℕ

abbrev pub generic_timer_init : IrqState → IrqState
generic_timer_init s = record s { timer = record (s.timer) { cntp_ctl_el0 = 1 } }

abbrev pub generic_timer_reset : (val : ℕ) → IrqState → IrqState
generic_timer_reset val s = record s { timer = record (s.timer) { cntp_tval_el0 = val } }

-- `cntfrq` is what the register CNTFRQ_EL0 reads.
abbrev pub generic_timer_get_freq : (cntfrq : ℕ) → ℕ
generic_timer_get_freq cntfrq = cntfrq % 2 ^ 32

abbrev pub enable_timer_interrupt : IrqState → IrqState
enable_timer_interrupt s = writel cnt_pns_irq timer_cntrl0 s

unfoldable pub handle_timer_irq : IrqState → ℤ × IrqState
handle_timer_irq s =
    let s1 = generic_timer_reset s.timer.arch_timer_rate s in
    (pos 0, record s1 { kernel = tick_handle_periodic s1.kernel })

unfoldable pub timer_init :
    TimerImage → (cntfrq : ℕ) → IrqState → Result (List PrintCall × IrqState)
timer_init img cntfrq s =
    let freq = generic_timer_get_freq cntfrq in
    let s1 = record s { timer = record (s.timer) { arch_timer_rate = freq / hz } } in
    let s2 = generic_timer_reset s1.timer.arch_timer_rate (generic_timer_init s1) in
    do
      (refused, s3) ← request_irq generic_timer_irq img.handler img.core_timer 0 s2
      ok (say "cntp freq:0x%x\r\n" (freq ∷ []) [] ∷ [], enable_timer_interrupt s3)

-- The handlers as the interrupt core calls them by their addresses: that of the timer, and others.
unfoldable pub run_timer :
    TimerImage
    → (other : (handler virq param : ℕ) → IrqState → ℤ × IrqState) → (handler virq param : ℕ)
    → IrqState
    → ℤ × IrqState
unfolding handle_timer_irq
run_timer img other handler virq param s =
    if handler == img.handler then handle_timer_irq s else other handler virq param s
