-- ===== src/Irq/Handle.antt =====
-- What becomes of an interrupt that arrives.
use arm64os.Common.{
  ℕ, ◌+◌, ◌%◌, ◌≤◌, ◌<◌, ◌≡◌, ◌≢◌, ◌⊎◌, inl, inr, arith, ◌∙◌, true, false, ◌&&◌, ltb, ◌==◌, some,
  ok, bit_and,
}
use arm64os.Common.Int.{ℤ, pos, negsuc}
use arm64os.Common.Bits.{and_low_mask}
use arm64os.Irq.{nr_irqs, IrqState, writel}
use arm64os.Irq.Chip.{gicv2_chip, gic_cpu_eoi, call_chip}
use arm64os.Irq.Core.{request_irq, generic_handle_irq, handle_domain_irq}
use arm64os.Irq.Gic.{handle_irq}
use arm64os.Irq.Descs.{irq_to_desc_below, irq_to_desc_beyond}
use arm64os.Irq.Request.{requested, request_irq-requested}

module _ (run : (handler virq param : ℕ) → IrqState → ℤ × IrqState) where
  -- An acknowledged number below 16, of a software interrupt, or from 1021 on, of a spurious one, is
  -- ignored.
  pub handle_irq-ignored :
      (irqstat : ℕ) (s : IrqState)
      → (irqstat % 1024 < 16) ⊎ (1021 ≤ irqstat % 1024)
      → handle_irq run irqstat s ≡ ok s
  handle_irq-ignored irqstat s which =
      let skip : (ltb 15 (bit_and irqstat 0x3ff) && ltb (bit_and irqstat 0x3ff) 1021) ≡ false =
        elim which [
          | inl h ↦ rw (and_low_mask 10 irqstat) (ground arith)
          | inr h ↦ rw (and_low_mask 10 irqstat) (ground arith)
        ] in
      unfold handle_irq in rw skip

  pub generic_handle_irq-eoi :
      (irq : ℕ) (s : IrqState)
      → irq < nr_irqs
      → (s.irq_desc irq).handler ≢ 0
      → let r = run (s.irq_desc irq).handler irq (s.irq_desc irq).param s in
        (r.1.irq_desc irq).chip ≡ some gicv2_chip
        → generic_handle_irq run irq s
          ≡ ok (r.0, writel (r.1.irq_desc irq).hwirq (r.1.gic_data.raw_cpu_base + gic_cpu_eoi) r.1)
  unfolding generic_handle_irq call_chip
  generic_handle_irq-eoi irq s low some_handler chip =
      let given : ((s.irq_desc irq).handler == 0) ≡ false = ground arith in
      rw (irq_to_desc_below irq low, given, chip, generic_handle_irq)

  pub handle_irq-handled :
      (irqstat : ℕ) (s : IrqState) {r : ℤ × IrqState}
      → 16 ≤ irqstat % 1024
      → irqstat % 1024 < 1021
      → generic_handle_irq run (irqstat % 1024) s ≡ ok r
      → handle_irq run irqstat s ≡ ok r.1
  unfolding handle_irq handle_domain_irq
  handle_irq-handled irqstat s lo hi runs =
      let number : bit_and irqstat 0x3ff ≡ irqstat % 1024 = and_low_mask 10 irqstat in
      let take : (ltb 15 (irqstat % 1024) && ltb (irqstat % 1024) 1021) ≡ true = ground arith in
      rw (number, take, runs)

  -- A number that the table of descriptors does not have is not handled, and its end is not signalled
  -- to the controller.
  pub handle_irq-beyond :
      (irqstat : ℕ) (s : IrqState)
      → nr_irqs ≤ irqstat % 1024
      → irqstat % 1024 < 1021
      → handle_irq run irqstat s ≡ ok s
  handle_irq-beyond irqstat s lo hi =
      handle_irq-handled irqstat s (omega arith) hi (no_desc (irqstat % 1024) lo)
    where
      no_desc : (irq : ℕ) → nr_irqs ≤ irq → generic_handle_irq run irq s ≡ ok (negsuc 0, s)
      no_desc irq h = unfold generic_handle_irq in rw (irq_to_desc_beyond irq h, generic_handle_irq)

  -- Once a handler is registered for an interrupt that the controller has mapped, an arrival of that
  -- interrupt calls the handler, once, with the interrupt's number and the registered parameter, and
  -- then signals the end of that interrupt to the controller. The handler must leave the descriptor
  -- and the controller's addresses alone.
  pub handle_irq-request_irq :
      (irqstat handler name param : ℕ) (s : IrqState)
      → 16 ≤ irqstat % 1024
      → irqstat % 1024 < nr_irqs
      → handler ≢ 0
      → (s.irq_desc (irqstat % 1024)).chip ≡ some gicv2_chip
      → ((u : IrqState)
          → ((run handler (irqstat % 1024) param u).1.irq_desc (irqstat % 1024)
              ≡ u.irq_desc (irqstat % 1024))
            × ((run handler (irqstat % 1024) param u).1.gic_data ≡ u.gic_data))
      → let irq = irqstat % 1024 in
        let t = requested irq handler name param s in
        (request_irq irq handler name param s ≡ ok (pos 0, t))
        × (handle_irq run irqstat t
            ≡ ok (
                writel
                  (s.irq_desc irq).hwirq
                  (s.gic_data.raw_cpu_base + gic_cpu_eoi)
                  (run handler irq param t).1))
  handle_irq-request_irq irqstat handler name param s lo hi some_handler chip keeps =
      let irq = irqstat % 1024 in
      let t = requested irq handler name param s in
      let h : (t.irq_desc irq).handler ≡ handler = ground arith in
      let p : (t.irq_desc irq).param ≡ param = ground arith in
      let c : (t.irq_desc irq).chip ≡ some gicv2_chip = ground (arith, chip) in
      let w : (t.irq_desc irq).hwirq ≡ (s.irq_desc irq).hwirq = ground arith in
      let kept = keeps t in
      let runs = generic_handle_irq-eoi irq t hi (rw h some_handler) (rw (h, p, kept.0) c) in
      (
        request_irq-requested irq handler name param s hi some_handler chip,
        handle_irq-handled irqstat t lo (omega arith) runs ∙ (rw (h, p, kept.0, kept.1, w)),
      )
