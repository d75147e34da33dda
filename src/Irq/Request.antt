-- ===== src/Irq/Request.antt =====
-- Registering a handler for an interrupt.
use arm64os.Common.{
  ℕ, ◌+◌, ◌*◌, ◌/◌, ◌%◌, ◌^◌, ◌≤◌, ◌<◌, ◌≡◌, ◌≢◌, ◌⊎◌, inl, inr, arith, false, ltb, ◌==◌,
  Bool-cases, ltb→lt, ltb→le, some, ok,
}
use arm64os.Common.Int.{pos, negsuc}
use arm64os.Irq.{nr_irqs, IrqState, set_desc, writel}
use arm64os.Irq.Chip.{gicv2_chip, gic_dist_enable_set, gic_dist_enable_clear, call_chip}
use arm64os.Irq.Core.{irq_enable, irq_disable, request_irq}
use arm64os.Irq.Descs.{irq_to_desc_below, irq_to_desc_beyond}

-- `request_irq` returns -1, and changes nothing, for a number outside of the table and for a handler
-- that is NULL.
pub request_irq-refused :
    (irq handler name param : ℕ) (s : IrqState)
    → (nr_irqs ≤ irq) ⊎ (handler ≡ 0)
    → request_irq irq handler name param s ≡ ok (negsuc 0, s)
unfolding request_irq
request_irq-refused irq handler name param s why = elim (Bool-cases (ltb irq nr_irqs)) [
  | inr high ↦ rw (irq_to_desc_beyond irq (ltb→le irq nr_irqs high), request_irq)
  | inl low ↦ elim why [
    | inl h ↦ absurd (omega (arith, ltb→lt irq nr_irqs low))
    | inr null ↦ rw (irq_to_desc_below irq (ltb→lt irq nr_irqs low), null, request_irq)
  ]
]

-- The bit of an interrupt among the registers at `offset` of the distributor, and their address.
abbrev pub bit_of : ℕ → ℕ
bit_of hwirq = 2 ^ (hwirq % 32)

abbrev pub register_of : IrqState → (offset hwirq : ℕ) → ℕ
register_of s offset hwirq = s.gic_data.raw_dist_base + offset + hwirq / 32 * 4

-- The state with the handler registered and the interrupt enabled.
abbrev pub requested : (irq handler name param : ℕ) → IrqState → IrqState
requested irq handler name param s =
    writel (bit_of (s.irq_desc irq).hwirq)
      (register_of s gic_dist_enable_set (s.irq_desc irq).hwirq)
      (set_desc irq (record (s.irq_desc irq) { handler = handler; param = param; name = name }) s)

irq_enable-unmask :
    (irq : ℕ) (s : IrqState)
    → (s.irq_desc irq).chip ≡ some gicv2_chip
    → irq_enable irq s
      ≡ ok (
          writel
            (bit_of (s.irq_desc irq).hwirq)
            (register_of s gic_dist_enable_set (s.irq_desc irq).hwirq)
            s)
unfolding irq_enable call_chip
irq_enable-unmask irq s h = rw h

-- `irq_disable` writes the interrupt's bit to the clearing register of the same place, so it undoes
-- what `irq_enable` does to that interrupt alone.
pub irq_disable-mask :
    (irq : ℕ) (s : IrqState)
    → (s.irq_desc irq).chip ≡ some gicv2_chip
    → irq_disable irq s
      ≡ ok (
          writel
            (bit_of (s.irq_desc irq).hwirq)
            (register_of s gic_dist_enable_clear (s.irq_desc irq).hwirq)
            s)
unfolding irq_disable call_chip
irq_disable-mask irq s h = rw h

-- For an interrupt that the controller has mapped, and a handler that is not NULL, `request_irq` returns
-- 0: the handler, its parameter and its name are registered, and the bit of the interrupt's hardware
-- number is written to the register that enables it.
pub request_irq-requested :
    (irq handler name param : ℕ) (s : IrqState)
    → irq < nr_irqs
    → handler ≢ 0
    → (s.irq_desc irq).chip ≡ some gicv2_chip
    → request_irq irq handler name param s ≡ ok (pos 0, requested irq handler name param s)
unfolding request_irq
request_irq-requested irq handler name param s low some_handler chip =
    let s1 =
      set_desc irq (record (s.irq_desc irq) { handler = handler; param = param; name = name }) s in
    let given : (handler == 0) ≡ false = ground arith in
    let same : (s1.irq_desc irq).chip ≡ some gicv2_chip = ground (arith, chip) in
    let hw : (s1.irq_desc irq).hwirq ≡ (s.irq_desc irq).hwirq = ground arith in
    let runs : irq_enable irq s1 ≡ ok (requested irq handler name param s) =
      rw hw at (irq_enable-unmask irq s1 same) in
    rw (irq_to_desc_below irq low, given, runs, request_irq)
