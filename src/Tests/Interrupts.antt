-- ===== src/Tests/Interrupts.antt =====
-- Tests of kernel/irq.c and drivers/irqchip/gicv2.c, on a controller with 64 interrupts.
use arm64os.Common.{
  ℕ, ◌+◌, ◌≡◌, refl, arith, none, some, inr, [], ok, fault, Returns, ◌==◌, if◌then◌else◌,
}
use arm64os.Common.Int.{ℤ, pos}
use arm64os.PageAlloc.{get_free_page}
use arm64os.Irq.{IrqDesc, IrqState, writel}
use arm64os.Irq.Chip.{gicv2_chip, gic_cpu_eoi}
use arm64os.Irq.Core.{request_irq}
use arm64os.Irq.Gic.{gic_dist_init, count_irqs, gic_init, handle_irq}
use arm64os.Irq.Request.{requested}
use arm64os.Irq.Init.{
  IsInitialised, OnlyWrites, gic_dist_init-ends, gic_init-IsInitialised, gic_init-beyond,
}
use arm64os.Irq.Handle.{handle_irq-ignored, handle_irq-request_irq}
use arm64os.Tests.{two_threads}

abbrev no_desc : IrqDesc
no_desc = record {
  name = 0;
  virq = 0;
  hwirq = 0;
  chip = none;
  domain = 0;
  chip_data = 0;
  refcount = 0;
  handler = 0;
  param = 0;
}

abbrev start : IrqState
start = record {
  irq_desc = λ _. no_desc;
  arch_irq_handler = none;
  domains = λ _. record { map = none; hwirq_max = 0; host_data = 0 };
  gic_data = record { raw_dist_base = 0; raw_cpu_base = 0; domain = 0; gic_irqs = 0 };
  writes = [];
  timer = record { arch_timer_rate = 0; cntp_ctl_el0 = 0; cntp_tval_el0 = 0 };
  kernel = two_threads;
}

-- The state with interrupt 30 mapped.
abbrev pub with_30 : IrqState
with_30 = record start {
  irq_desc =
      λ i. if i == 30 then record no_desc { hwirq = 30; chip = some gicv2_chip } else no_desc;
  gic_data = record { raw_dist_base = 4096; raw_cpu_base = 8192; domain = 4202496; gic_irqs = 64 };
}

-- A controller whose type register holds `n`.
abbrev typed : ℕ → ℕ → ℕ
typed n a = if a == 4100 then n else 0

abbrev pub calm : ℕ → ℕ → ℕ → IrqState → ℤ × IrqState
calm handler virq param s = (pos 0, s)

third_page : (get_free_page start.kernel.pages).0 ≡ 4202496
unfolding get_free_page
third_page = refl

irqs_1 : count_irqs (typed 1) 4096 ≡ 64
unfolding count_irqs
irqs_1 = refl

irqs_9 : count_irqs (typed 9) 4096 ≡ 320
unfolding count_irqs
irqs_9 = refl

gic_init-IsInitialised_example :
    Returns
      (gic_init (typed 1) 300 77 0 4096 8192 start)
      (λ r. (r.0 ≡ pos 0) × IsInitialised 77 4096 8192 (count_irqs (typed 1) 4096) start r.1)
gic_init-IsInitialised_example =
    gic_init-IsInitialised (typed 1) 300 77 4096 8192 start (rw irqs_1 (omega arith))
      (rw irqs_1 (omega arith)) (rw third_page (omega arith)) (omega arith)

gic_init-beyond_example : gic_init (typed 9) 300 77 0 4096 8192 start ≡ fault
gic_init-beyond_example = gic_init-beyond (typed 9) 300 77 4096 8192 start (rw irqs_9 (omega arith))

gic_dist_init-ends_example : Returns (gic_dist_init (typed 1) 65 with_30) (OnlyWrites with_30)
gic_dist_init-ends_example = gic_dist_init-ends (typed 1) 65 with_30 (omega arith)

handle_irq-ignored_example : handle_irq calm 1023 with_30 ≡ ok with_30
handle_irq-ignored_example = handle_irq-ignored calm 1023 with_30 (inr (omega arith))

handle_irq-request_irq_example :
    (request_irq 30 5 6 7 with_30 ≡ ok (pos 0, requested 30 5 6 7 with_30))
    × (handle_irq calm 30 (requested 30 5 6 7 with_30)
        ≡ ok (writel 30 (8192 + gic_cpu_eoi) (requested 30 5 6 7 with_30)))
handle_irq-request_irq_example =
    handle_irq-request_irq calm 30 5 6 7 with_30 (omega arith) (omega arith) (omega arith) refl
      (λ u. (refl, refl))
