-- ===== src/Irq/Descs.antt =====
-- The loops over descriptors: reserving them, and mapping them to the controller.
use arm64os.Common.{
  ℕ, zero, suc, ◌+◌, ◌%◌, ◌^◌, ◌≤◌, ◌<◌, ◌≡◌, refl, arith, ap, ◌∙◌, Bool, false, ◌&&◌, ltb, leb,
  if◌then◌else◌, none, some, ok, fault, Returns, lt→ltb, le→ltb, ltb→lt, ltb→le, Bool-cases, inl,
  inr, fun_ext,
}
use arm64os.Common.Int.{pos}
use arm64os.Irq.{nr_irqs, IrqDesc, IrqState, set_desc, gicv2_irq_map}
use arm64os.Irq.Chip.{gicv2_chip}
use arm64os.Irq.Core.{
  irq_to_desc, alloc_descs, irq_alloc_descs, irq_domain_set_hwirq_chip, call_map,
  irq_domain_map_irq, map_irqs,
}

abbrev pub within : (lo count q : ℕ) → Bool
within lo count q = leb lo q && ltb q (lo + count)

abbrev pub counted : IrqDesc → IrqDesc
counted d = record d { refcount = (d.refcount + 1) % 2 ^ 32 }

-- Descriptors from `lo` on, `count` of them, are changed by `f`, and nothing else is.
pub record Changed (lo count : ℕ) (f : ℕ → IrqDesc → IrqDesc) (s t : IrqState) : Type 0 where
  pub descs :
      (q : ℕ) → t.irq_desc q ≡ (if within lo count q then f q (s.irq_desc q) else s.irq_desc q)
  pub rest : t ≡ record s { irq_desc = t.irq_desc }

pub irq_to_desc_below : (irq : ℕ) → irq < nr_irqs → irq_to_desc irq ≡ some irq
unfolding irq_to_desc
irq_to_desc_below irq h = rw (lt→ltb irq nr_irqs h)

pub irq_to_desc_beyond : (irq : ℕ) → nr_irqs ≤ irq → irq_to_desc irq ≡ none
unfolding irq_to_desc
irq_to_desc_beyond irq h = rw (le→ltb irq nr_irqs h)

-- One more descriptor ahead of those that a loop changes.
Changed-step :
    (lo n : ℕ) (f : ℕ → IrqDesc → IrqDesc) (s t : IrqState)
    → Changed (lo + 1) n f (set_desc lo (f lo (s.irq_desc lo)) s) t
    → Changed lo (suc n) f s t
Changed-step lo n f s t c = record { descs = λ q. ground (arith, c.descs q); rest = c.rest }

alloc_descs-step :
    (irq left : ℕ) (s : IrqState)
    → irq < nr_irqs
    → alloc_descs irq (suc left) s
      ≡ alloc_descs (irq + 1) left (set_desc irq (counted (s.irq_desc irq)) s)
unfolding alloc_descs
alloc_descs-step irq left s h =
    let wrap : (irq + 1) % 2 ^ 32 ≡ irq + 1 = omega arith in rw (irq_to_desc_below irq h, wrap)

alloc_descs-Changed :
    (irq left : ℕ) (s : IrqState)
    → irq + left ≤ nr_irqs
    → Returns (alloc_descs irq left s) (Changed irq left (λ _. counted) s)
alloc_descs-Changed irq zero s h =
    (s, unfold alloc_descs in refl, record { descs = λ q. ground arith; rest = refl })
alloc_descs-Changed irq (suc left) s h =
    let (t, runs, c) =
      alloc_descs-Changed (irq + 1) left (set_desc irq (counted (s.irq_desc irq)) s)
        (omega arith) in
    (
      t,
      alloc_descs-step irq left s (omega arith) ∙ runs,
      Changed-step irq left (λ _. counted) s t c,
    )

-- Reserving descriptors that the table has adds one to the count of each of them, and touches no
-- other.
pub irq_alloc_descs-Changed :
    (start count : ℕ) (s : IrqState)
    → start + count ≤ nr_irqs
    → Returns
        (irq_alloc_descs start count s)
        (λ r. (r.0 ≡ start) × Changed start count (λ _. counted) s r.1)
irq_alloc_descs-Changed start count s h =
    let (t, runs, c) = alloc_descs-Changed start count s h in
    ((start, t), unfold irq_alloc_descs in rw runs, (refl, c))

alloc_descs-beyond :
    (irq left : ℕ) (s : IrqState)
    → irq ≤ nr_irqs
    → nr_irqs < irq + left
    → alloc_descs irq left s ≡ fault
alloc_descs-beyond irq zero s h k = absurd (omega arith)
alloc_descs-beyond irq (suc left) s h k = elim (Bool-cases (ltb irq nr_irqs)) [
  | inl below ↦
      alloc_descs-step irq left s (ltb→lt irq nr_irqs below)
      ∙ alloc_descs-beyond (irq + 1) left (set_desc irq (counted (s.irq_desc irq)) s)
          (omega (arith, ltb→lt irq nr_irqs below)) (omega arith)
  | inr end ↦ unfold alloc_descs in rw (irq_to_desc_beyond irq (ltb→le irq nr_irqs end))
]

-- Reserving more descriptors than the table has dereferences a null pointer, a fault.
pub irq_alloc_descs-beyond :
    (start count : ℕ) (s : IrqState)
    → start ≤ nr_irqs
    → nr_irqs < start + count
    → irq_alloc_descs start count s ≡ fault
irq_alloc_descs-beyond start count s h k =
    unfold irq_alloc_descs in rw (alloc_descs-beyond start count s h k)

-- What mapping an interrupt of the controller sets.
abbrev pub mapped : (domain host_data : ℕ) → ℕ → IrqDesc → IrqDesc
mapped domain host_data irq d = record d {
  hwirq = irq;
  domain = domain;
  chip = some gicv2_chip;
  chip_data = host_data;
}

set_chip-mapped :
    (domain irq host_data : ℕ) (s : IrqState)
    → irq < nr_irqs
    → irq_domain_set_hwirq_chip domain irq irq (some gicv2_chip) host_data s ≡ (
      pos 0,
      set_desc irq
          (record (s.irq_desc irq) { hwirq = irq; chip = some gicv2_chip; chip_data = host_data })
          s,
    )
unfolding irq_domain_set_hwirq_chip
set_chip-mapped domain irq host_data s h = rw (irq_to_desc_below irq h, irq_domain_set_hwirq_chip)

call_map-mapped :
    (domain irq : ℕ) (s : IrqState)
    → 16 ≤ irq
    → irq < nr_irqs
    → call_map gicv2_irq_map domain irq irq s ≡ (
      pos 0,
      set_desc irq
          (record (s.irq_desc irq) {
            hwirq = irq;
            chip = some gicv2_chip;
            chip_data = (s.domains domain).host_data;
          })
          s,
    )
unfolding call_map
call_map-mapped domain irq s lo hi =
    let big : ltb irq 16 ≡ false = le→ltb irq 16 lo in
    rw (big, set_chip-mapped domain irq (s.domains domain).host_data s hi)

irq_domain_map_irq-mapped :
    (domain irq : ℕ) (s : IrqState)
    → 16 ≤ irq
    → irq < nr_irqs
    → (s.domains domain).map ≡ some gicv2_irq_map
    → irq_domain_map_irq domain irq irq s
      ≡ ok (pos 0, set_desc irq (mapped domain (s.domains domain).host_data irq (s.irq_desc irq)) s)
unfolding irq_domain_map_irq
irq_domain_map_irq-mapped domain irq s lo hi ops =
    let s1 = set_desc irq (record (s.irq_desc irq) { hwirq = irq; domain = domain }) s in
    rw (irq_to_desc_below irq hi, ops, call_map-mapped domain irq s1 lo hi)
      (ap (λ (f : ℕ → IrqDesc). ok (pos 0, record s { irq_desc = f }))
        (fun_ext (λ q. ground arith)))

map_irqs-step :
    (domain irq left : ℕ) (s : IrqState)
    → 16 ≤ irq
    → irq < nr_irqs
    → (s.domains domain).map ≡ some gicv2_irq_map
    → map_irqs domain irq irq (suc left) s
      ≡ map_irqs domain
          (irq + 1)
          (irq + 1)
          left
          (set_desc irq (mapped domain (s.domains domain).host_data irq (s.irq_desc irq)) s)
unfolding map_irqs
map_irqs-step domain irq left s lo hi ops =
    let wrap : (irq + 1) % 2 ^ 32 ≡ irq + 1 = omega arith in
    rw (irq_domain_map_irq-mapped domain irq s lo hi ops, wrap)

-- Mapping interrupts from the first that is not a software one on gives each of them, and no
-- other, its number, the domain and the controller's chip.
pub map_irqs-Changed :
    (domain irq left : ℕ) (s : IrqState)
    → 16 ≤ irq
    → irq + left ≤ nr_irqs
    → (s.domains domain).map ≡ some gicv2_irq_map
    → Returns
        (map_irqs domain irq irq left s)
        (Changed irq left (mapped domain (s.domains domain).host_data) s)
map_irqs-Changed domain irq zero s lo hi ops =
    (s, unfold map_irqs in refl, record { descs = λ q. ground arith; rest = refl })
map_irqs-Changed domain irq (suc left) s lo hi ops =
    let f = mapped domain (s.domains domain).host_data in
    let (t, runs, c) =
      map_irqs-Changed domain (irq + 1) left (set_desc irq (f irq (s.irq_desc irq)) s) (omega arith)
        (omega arith) ops in
    (t, map_irqs-step domain irq left s lo (omega arith) ops ∙ runs, Changed-step irq left f s t c)
