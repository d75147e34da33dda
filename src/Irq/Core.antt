-- ===== src/Irq/Core.antt =====
-- kernel/irq.c. A pointer to a descriptor is its index in `irq_desc`; a call through a null pointer is a
-- fault. `run` is what the interrupts' handlers do: the effect and the result of the handler at an
-- address on its interrupt and its parameter.
use arm64os.Common.{
  ℕ, zero, suc, ◌+◌, ◌%◌, ◌^◌, ltb, ◌==◌, if◌then◌else◌, update, Option, none, some, Result, ok,
  ◌>>=◌, deref,
}
use arm64os.Common.Int.{ℤ, pos, negsuc}
use arm64os.PageAlloc.{get_free_page}
use arm64os.Irq.{nr_irqs, IrqChip, MapFn, gicv2_irq_map, ArchHandler, IrqState, set_desc}
use arm64os.Irq.Chip.{call_chip, gicv2_chip}

unfoldable pub irq_to_desc : ℕ → Option ℕ
irq_to_desc irq = if ltb irq nr_irqs then some irq else none

-- The loop of `irq_alloc_descs` at number `irq`, with `left` rounds to go.
unfoldable pub alloc_descs : (irq left : ℕ) → IrqState → Result IrqState
unfolding irq_to_desc
alloc_descs irq zero s = ok s
alloc_descs irq (suc left) s = do
  i ← deref (irq_to_desc irq)
  let d = s.irq_desc i
  alloc_descs ((irq + 1) % 2 ^ 32) left
      (set_desc i (record d { refcount = (d.refcount + 1) % 2 ^ 32 }) s)

-- It returns `start`.
unfoldable pub irq_alloc_descs : (start count : ℕ) → IrqState → Result (ℕ × IrqState)
unfolding alloc_descs
irq_alloc_descs start count s = do t ← alloc_descs start count s; ok (start, t)

abbrev pub irq_find_mapping : (domain hwirq : ℕ) → ℕ
irq_find_mapping domain hwirq = hwirq

unfoldable pub irq_enable : ℕ → IrqState → Result IrqState
irq_enable desc s = do
  chip ← deref (s.irq_desc desc).chip
  elim chip.irq_enable [
    | some fn ↦ ok (call_chip fn (s.irq_desc desc) s)
    | none ↦ (do fn ← deref chip.irq_unmask; ok (call_chip fn (s.irq_desc desc) s))
  ]

unfoldable pub irq_disable : ℕ → IrqState → Result IrqState
irq_disable desc s = do
  chip ← deref (s.irq_desc desc).chip
  elim chip.irq_disable [
    | some fn ↦ ok (call_chip fn (s.irq_desc desc) s)
    | none ↦ (do fn ← deref chip.irq_mask; ok (call_chip fn (s.irq_desc desc) s))
  ]

unfoldable pub request_irq : (irq handler name param : ℕ) → IrqState → Result (ℤ × IrqState)
request_irq irq handler name param s = elim (irq_to_desc irq) [
  | none ↦ ok (negsuc 0, s)
  | some desc ↦
      let enable = (do
        t ← irq_enable desc (
            set_desc desc
              (record (s.irq_desc desc) { handler = handler; param = param; name = name }) s)
        ok (pos 0, t)) in
      if handler == 0 then ok (negsuc 0, s) else enable
]

unfoldable pub free_irq : ℕ → IrqState → Result IrqState
free_irq irq s = do
  desc ← deref (irq_to_desc irq)
  ok (set_desc desc (record (s.irq_desc desc) { handler = 0; param = 0 }) s)

unfoldable pub irq_domain_set_hwirq_chip :
    (domain virq hwirq : ℕ) → Option IrqChip → (chip_data : ℕ) → IrqState → ℤ × IrqState
irq_domain_set_hwirq_chip domain virq hwirq chip chip_data s = elim (irq_to_desc virq) [
  | none ↦ (negsuc 0, s)
  | some desc ↦ (
    pos 0,
    set_desc desc (record (s.irq_desc desc) { hwirq = hwirq; chip = chip; chip_data = chip_data })
        s,
  )
]

-- The call of `ops->map`: `gicv2_irq_map` of drivers/irqchip/gicv2.c.
unfoldable pub call_map : MapFn → (domain virq hwirq : ℕ) → IrqState → ℤ × IrqState
call_map gicv2_irq_map domain virq hwirq s = if ltb hwirq 16 then (pos 0, s) else (
  pos 0,
  (irq_domain_set_hwirq_chip domain virq hwirq (some gicv2_chip) (s.domains domain).host_data s).1,
)

-- What it prints when the map refuses is not modelled.
unfoldable pub irq_domain_map_irq : (domain virq hwirq : ℕ) → IrqState → Result (ℤ × IrqState)
irq_domain_map_irq domain virq hwirq s = do
  desc ← deref (irq_to_desc virq)
  let s1 = set_desc desc (record (s.irq_desc desc) { hwirq = hwirq; domain = domain }) s
  elim (s1.domains domain).map [
    | none ↦ ok (pos 0, s1)
    | some fn ↦ ok (call_map fn domain virq hwirq s1)
  ]

-- The loop of `irq_domain_add`, with `left` rounds to go.
unfoldable pub map_irqs : (domain virq hwirq left : ℕ) → IrqState → Result IrqState
map_irqs domain virq hwirq zero s = ok s
map_irqs domain virq hwirq (suc left) s = do
  r ← irq_domain_map_irq domain virq hwirq s
  map_irqs domain ((virq + 1) % 2 ^ 32) ((hwirq + 1) % 2 ^ 32) left r.1

-- The domain lies in a page of its own, at the address that is returned; 0 is NULL.
unfoldable pub irq_domain_add :
    (virq hwirq count : ℕ) → Option MapFn → (host_data : ℕ) → IrqState → Result (ℕ × IrqState)
irq_domain_add virq hwirq count ops host_data s =
    let (page, pages) = get_free_page s.kernel.pages in
    let s1 = record s { kernel = record (s.kernel) { pages = pages } } in
    let added = (do
      t ← map_irqs page virq hwirq count (record s1 {
        domains =
            update s1.domains page
              (record { map = ops; hwirq_max = (hwirq + count) % 2 ^ 32; host_data = host_data });
      })
      ok (page, t)) in
    if page == 0 then ok (0, s1) else added

unfoldable pub set_handle_irq : ArchHandler → IrqState → IrqState
set_handle_irq handle_irq s = elim s.arch_irq_handler [
  | some _ ↦ s
  | none ↦ record s { arch_irq_handler = some handle_irq }
]

module _ (run : (handler virq param : ℕ) → IrqState → ℤ × IrqState) where
  unfoldable pub generic_handle_irq : ℕ → IrqState → Result (ℤ × IrqState)
  generic_handle_irq virq s = elim (irq_to_desc virq) [
    | none ↦ ok (negsuc 0, s)
    | some desc ↦
        let d = s.irq_desc desc in
        let r = run d.handler virq d.param s in
        let handled = (do
          chip ← deref (r.1.irq_desc desc).chip
          elim chip.irq_eoi [
            | none ↦ ok r
            | some fn ↦ ok (r.0, call_chip fn (r.1.irq_desc desc) r.1)
          ]) in
        if d.handler == 0 then ok (negsuc 0, s) else handled
  ]

  unfoldable pub handle_domain_irq : (domain hwirq : ℕ) → IrqState → Result (ℤ × IrqState)
  handle_domain_irq domain hwirq s = do
    r ← generic_handle_irq (irq_find_mapping domain hwirq) s
    ok (pos 0, r.1)
