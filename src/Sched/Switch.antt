-- ===== src/Sched/Switch.antt =====
-- The context switch: what it saves, and whose stack the processor is on.
use arm64os.Common.{ℕ, ◌+◌, ◌%◌, ◌≤◌, ◌<◌, ◌≡◌, ◌≢◌, arith, sym, ap, ◌∙◌}
use arm64os.Common.Bits.{and_low_mask}
use arm64os.Kernel.{TaskStruct, CpuContext, Image, Kernel, thread_size, current}
use arm64os.Sched.{switch_to}

-- The stack pointer of a context lies in the kernel stack of task `p`, a page that begins at `p`.
pub record OnStack (p : ℕ) (c : CpuContext) : Type 0 where
  pub aligned : p % thread_size ≡ 0
  pub above : p ≤ c.sp
  pub below : c.sp < p + thread_size

pub current_of_OnStack : (p : ℕ) (s : Kernel) → OnStack p s.cpu → current s ≡ p
current_of_OnStack p s h = omega (arith, and_low_mask 12 s.cpu.sp)

pub current-OnStack : (s : Kernel) → OnStack (current s) s.cpu
current-OnStack s = omega (arith, and_low_mask 12 s.cpu.sp)

pub OnStack-of_sp : {p pc : ℕ} {c : CpuContext} → OnStack p c → OnStack p (record c { pc = pc })
OnStack-of_sp on = omega arith

-- After a switch to another task whose saved stack pointer lies in its own stack, that task is
-- `current`; the processor holds its saved registers; the registers of the old task are saved, with
-- the return address of the switch, and nothing else of it changes; no other task is touched.
pub switch_to_lem :
    (img : Image) (prev next : ℕ) (s : Kernel)
    → prev ≢ next
    → OnStack next (s.tasks next).cpu_context
    → let t = (switch_to img prev next s).1 in
      (current t ≡ next)
      × (t.cpu ≡ (s.tasks next).cpu_context)
      × (t.tasks prev
          ≡ record (s.tasks prev) { cpu_context = record (s.cpu) { pc = img.switch_return } })
      × ((q : ℕ) → q ≢ prev → t.tasks q ≡ s.tasks q)
unfolding switch_to
switch_to_lem img prev next s ne on =
    let cpu_is : (switch_to img prev next s).1.cpu ≡ (s.tasks next).cpu_context = ground arith in
    (
      current_of_OnStack next (switch_to img prev next s).1 (rw cpu_is on),
      cpu_is,
      ground arith,
      λ q h. ground arith,
    )

-- Switching to another task, whose saved stack pointer lies in its own stack, and back gives the processor the registers that it had, with the
-- return address of the switch, and the old task is `current` again.
pub switch_to-switch_to :
    (img : Image) (next : ℕ) (s : Kernel)
    → current s ≢ next
    → OnStack next (s.tasks next).cpu_context
    → let t = (switch_to img next (current s) (switch_to img (current s) next s).1).1 in
      (t.cpu ≡ record (s.cpu) { pc = img.switch_return }) × (current t ≡ current s)
switch_to-switch_to img next s ne on =
    let there = switch_to_lem img (current s) next s ne on in
    let back =
      switch_to_lem img next (current s) (switch_to img (current s) next s).1 (λ e. ne (sym e))
        (rw there.2 (OnStack-of_sp (current-OnStack s))) in
    (back.1 ∙ ap (λ (t : TaskStruct). t.cpu_context) there.2, back.0)
