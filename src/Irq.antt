-- ===== src/Irq.antt =====
-- The interrupt subsystem: include/irq.h and the data of drivers/irqchip/gicv2.c. Its children model
-- the code: Chip and Gic are gicv2.c, Core is kernel/irq.c. Function pointers are names of the
-- functions that the code stores in them; the pointer of an interrupt's handler is a number, 0 for
-- NULL, and what the handler does is a parameter.
pub mod Chip
pub mod Core
pub mod Gic
pub mod Descs
pub mod Request
pub mod Init
pub mod Handle
use arm64os.Common.{
  ℕ, zero, suc, ◌+◌, Option, List, ◌∷◌, ltb, if◌then◌else◌, Result, ok, out_of_fuel, update,
}
use arm64os.Kernel.{Kernel}

abbrev pub nr_irqs : ℕ
nr_irqs = 256

pub data ChipFn : Type 0 where
  gicv2_mask_irq gicv2_unmask_irq gicv2_eoi_irq : ChipFn

pub record IrqChip : Type 0 where
  pub irq_enable : Option ChipFn
  pub irq_disable : Option ChipFn
  pub irq_mask : Option ChipFn
  pub irq_unmask : Option ChipFn
  pub irq_eoi : Option ChipFn

-- `chip` is NULL where it is `none`. `domain` and the other pointers are addresses.
pub record IrqDesc : Type 0 where
  pub name : ℕ
  pub virq : ℕ
  pub hwirq : ℕ
  pub chip : Option IrqChip
  pub domain : ℕ
  pub chip_data : ℕ
  pub refcount : ℕ
  pub handler : ℕ
  pub param : ℕ

pub data MapFn : Type 0 where
  gicv2_irq_map : MapFn

-- `ops.map` of `struct irq_domain_ops`, the one operation that is called, is `map`.
pub record IrqDomain : Type 0 where
  pub map : Option MapFn
  pub hwirq_max : ℕ
  pub host_data : ℕ

pub data ArchHandler : Type 0 where
  gic_handle_irq : ArchHandler

pub record GicChipData : Type 0 where
  pub raw_dist_base : ℕ
  pub raw_cpu_base : ℕ
  pub domain : ℕ
  pub gic_irqs : ℕ

-- `arch_timer_rate` and the system registers of the timer of arch/arm64/mach-rpi/timer.c.
pub record TimerState : Type 0 where
  pub arch_timer_rate : ℕ
  pub cntp_ctl_el0 : ℕ
  pub cntp_tval_el0 : ℕ

-- `writes` are the writes to device registers, an address and a value each, the latest first.
pub record IrqState : Type 0 where
  pub irq_desc : ℕ → IrqDesc
  pub arch_irq_handler : Option ArchHandler
  pub domains : ℕ → IrqDomain
  pub gic_data : GicChipData
  pub writes : List (ℕ × ℕ)
  pub timer : TimerState
  pub kernel : Kernel

abbrev pub writel : (value address : ℕ) → IrqState → IrqState
writel value address s = record s { writes = (address, value) ∷ s.writes }

abbrev pub set_desc : ℕ → IrqDesc → IrqState → IrqState
set_desc irq d s = record s { irq_desc = update s.irq_desc irq d }

-- `for (; i < stop; i += step) body`, on fuel.
unfoldable pub for_loop :
    ℕ → (i stop step : ℕ) → (ℕ → IrqState → IrqState) → IrqState → Result IrqState
for_loop zero i stop step body s = out_of_fuel
for_loop (suc fuel) i stop step body s =
    let rest = for_loop fuel (i + step) stop step body (body i s) in
    if ltb i stop then rest else ok s
