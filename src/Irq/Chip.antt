-- ===== src/Irq/Chip.antt =====
-- The operations of `gicv2_chip` of drivers/irqchip/gicv2.c, with the registers of include/arm-gic.h.
use arm64os.Common.{ℕ, ◌+◌, ◌*◌, ◌/◌, ◌%◌, ◌^◌, none, some}
use arm64os.Irq.{
  ChipFn, gicv2_mask_irq, gicv2_unmask_irq, gicv2_eoi_irq, IrqChip, IrqDesc, IrqState, writel,
}

abbrev pub gic_cpu_eoi : ℕ
gic_cpu_eoi = 0x10

abbrev pub gic_dist_enable_set : ℕ
gic_dist_enable_set = 0x100

abbrev pub gic_dist_enable_clear : ℕ
gic_dist_enable_clear = 0x180

-- `gic_irq`, `gic_get_dist_base` and `gic_get_cpu_base`
abbrev pub gic_irq : IrqDesc → ℕ
gic_irq d = d.hwirq

abbrev pub gic_get_dist_base : IrqState → ℕ
gic_get_dist_base s = s.gic_data.raw_dist_base

abbrev pub gic_get_cpu_base : IrqState → ℕ
gic_get_cpu_base s = s.gic_data.raw_cpu_base

-- The register addresses are far below 2 ^ 64, and their sums do not wrap.
unfoldable pub gic_set_irq : IrqDesc → (offset : ℕ) → IrqState → IrqState
gic_set_irq d offset s =
    let mask = 2 ^ (gic_irq d % 32) in
    writel mask (gic_get_dist_base s + offset + gic_irq d / 32 * 4) s

-- The call of a chip's function through its pointer.
unfoldable pub call_chip : ChipFn → IrqDesc → IrqState → IrqState
unfolding gic_set_irq
call_chip gicv2_eoi_irq d s = writel (gic_irq d) (gic_get_cpu_base s + gic_cpu_eoi) s
call_chip gicv2_mask_irq d s = gic_set_irq d gic_dist_enable_clear s
call_chip gicv2_unmask_irq d s = gic_set_irq d gic_dist_enable_set s

abbrev pub gicv2_chip : IrqChip
gicv2_chip = record {
  irq_enable = none;
  irq_disable = none;
  irq_mask = some gicv2_mask_irq;
  irq_unmask = some gicv2_unmask_irq;
  irq_eoi = some gicv2_eoi_irq;
}
