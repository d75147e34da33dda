-- ===== src/Irq/Gic.antt =====
-- drivers/irqchip/gicv2.c: the initialisation of the controller and its interrupts. `readl` is what
-- its registers hold, by address; a read of the acknowledge register is a parameter of its own,
-- since it changes from read to read. Writes are recorded in order. The one controller is `gic_data`.
use arm64os.Common.{
  ℕ, zero, suc, ◌+◌, ◌-◌, ◌*◌, ◌/◌, ◌%◌, ◌^◌, ltb, ◌==◌, if◌then◌else◌, ◌&&◌, bit_and, bit_or, some,
  Result, ok, fault, ◌>>=◌, deref,
}
use arm64os.Common.Int.{ℤ, pos, negsuc}
use arm64os.Sched.{preempt_add, preempt_sub}
use arm64os.Irq.{IrqState, GicChipData, gic_handle_irq, gicv2_irq_map, writel, for_loop}
use arm64os.Irq.Chip.{gic_dist_enable_set, gic_dist_enable_clear}
use arm64os.Irq.Core.{irq_alloc_descs, irq_domain_add, set_handle_irq, handle_domain_irq}

abbrev pub hw_irq_start : ℕ
hw_irq_start = 16

module _ (readl : ℕ → ℕ) where
  -- The loop of `gic_get_cpumask` at `i`, with `left` rounds to go; `mask` is its last value.
  unfoldable pub find_cpumask : (base i left mask : ℕ) → ℕ
  find_cpumask base i zero mask = mask
  find_cpumask base i (suc left) mask =
      let a = readl (base + 0x800 + i) in
      let b = bit_or a (a / 2 ^ 16) in
      let c = bit_or b (b / 2 ^ 8) in
      let rest = find_cpumask base (i + 4) left c in if c == 0 then rest else c

  unfoldable pub gic_get_cpumask : GicChipData → ℕ
  gic_get_cpumask gic = find_cpumask gic.raw_dist_base 0 8 0

  -- The loops run on fuel: see `Init.gic_dist_init-ends`.
  unfoldable pub gic_dist_init : (fuel : ℕ) → IrqState → Result IrqState
  gic_dist_init fuel s =
      let base = s.gic_data.raw_dist_base in
      let gic_irqs = s.gic_data.gic_irqs in
      let s1 = writel 0 (base + 0) s in
      let mask0 = gic_get_cpumask s1.gic_data in
      let mask1 = bit_or mask0 (mask0 * 2 ^ 8 % 2 ^ 32) in
      let cpumask = bit_or mask1 (mask1 * 2 ^ 16 % 2 ^ 32) in
      do
        s2 ← for_loop fuel 32 gic_irqs 4 (λ i. writel cpumask (base + 0x800 + i * 4 / 4)) s1
        s3 ← for_loop fuel 32 gic_irqs 16 (λ i. writel 0 (base + 0xc00 + i / 4)) s2
        s4 ←
            for_loop fuel 0 gic_irqs 32
              (λ i s.
                writel 0xffffffff (base + gic_dist_enable_clear + i / 8)
                  (writel 0xffffffff (base + 0x380 + i / 8) s))
              s3
        ok (writel 1 (base + 0) (writel 0x0000ffff (base + gic_dist_enable_set) s4))

  unfoldable pub gic_cpu_init : (fuel : ℕ) → IrqState → Result IrqState
  gic_cpu_init fuel s =
      let base = s.gic_data.raw_cpu_base in
      let dist_base = s.gic_data.raw_dist_base in
      do
        s1 ← for_loop fuel 0 32 4 (λ i. writel 0xa0a0a0a0 (dist_base + 0x400 + i * 4 / 4)) s
        ok (writel 1 (base + 0) (writel 0xf0 (base + 4) s1))

  -- `gic_irqs` as the controller's type register tells it.
  unfoldable pub count_irqs : (dist_base : ℕ) → ℕ
  count_irqs dist_base =
      let n = (bit_and (readl (dist_base + 4)) 0x1f + 1) * 32 in if ltb 1020 n then 1020 else n

  -- For any `chip` but 0, `gic_data[chip]` lies outside of the array. What is printed is not
  -- modelled. The address of `gic_data[0]`, which only `host_data` keeps, is `gic`.
  unfoldable pub gic_init :
      (fuel gic chip dist_base cpu_base : ℕ) → IrqState → Result (ℤ × IrqState)
  gic_init fuel gic zero dist_base cpu_base s =
      let gic_irqs = count_irqs dist_base in
      let s1 = record s {
        gic_data = record (s.gic_data) {
          raw_dist_base = dist_base;
          raw_cpu_base = cpu_base;
          gic_irqs = gic_irqs;
        };
      } in
      do
        a ← irq_alloc_descs hw_irq_start (gic_irqs - hw_irq_start) s1
        d ← irq_domain_add a.0 hw_irq_start (gic_irqs - hw_irq_start) (some gicv2_irq_map) gic a.1
        let s2 = record (d.1) { gic_data = record (d.1.gic_data) { domain = d.0 } }
        if d.0 == 0 then ok (negsuc 0, s2) else do
          s3 ← gic_dist_init fuel s2
          s4 ← gic_cpu_init fuel s3
          ok (pos 0, set_handle_irq gic_handle_irq s4)
  gic_init fuel gic (suc chip) dist_base cpu_base s = fault

module _ (run : (handler virq param : ℕ) → IrqState → ℤ × IrqState) where
  -- `gic_handle_irq`, where the acknowledge register holds `irqstat`.
  unfoldable pub handle_irq : (irqstat : ℕ) → IrqState → Result IrqState
  handle_irq irqstat s =
      let irqnr = bit_and irqstat 0x3ff in
      let domain = s.gic_data.domain in
      let handled = (do r ← handle_domain_irq run domain irqnr s; ok (r.1)) in
      if ltb 15 irqnr && ltb irqnr 1021 then handled else ok s

  -- `irq_handler` of kernel/irq.c. `arch_irq_handler` is NULL before `gic_init` is through.
  unfoldable pub irq_handler : (irqstat : ℕ) → IrqState → Result IrqState
  irq_handler irqstat s = do
    let entered = record s { kernel = preempt_add (2 ^ 8) s.kernel }
    handler ← deref entered.arch_irq_handler
    t ← handle_irq irqstat entered
    ok (record t { kernel = preempt_sub (2 ^ 8) t.kernel })
