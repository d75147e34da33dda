-- ===== src/SchedNop/Tick.antt =====
-- The time slice: `task_tick`, called once for each timer interrupt.
use arm64os.Common.{ℕ, zero, suc, ◌-◌, ◌<◌, ◌≡◌, arith, ltb, ◌≢◌, ◌∙◌, if◌then◌else◌}
use arm64os.Common.Int.{pos}
use arm64os.Kernel.{Kernel}
use arm64os.SchedNop.{task_tick}

abbrev pub ticks : ℕ → ℕ → Kernel → Kernel
ticks zero p s = s
ticks (suc n) p s = ticks n p (task_tick p s)

pub task_tick_lem :
    (p c : ℕ) (s : Kernel)
    → (s.tasks p).counter ≡ pos c
    → (((task_tick p s).tasks p).counter ≡ pos (c - 1))
      × (((task_tick p s).tasks p).need_resched ≡ (if ltb 1 c then (s.tasks p).need_resched else 1))
unfolding task_tick
task_tick_lem p c s h = (ground arith, ground arith)

pub task_tick_other : (p q : ℕ) (s : Kernel) → q ≢ p → (task_tick p s).tasks q ≡ s.tasks q
unfolding task_tick
task_tick_other p q s h = ground arith

-- After `n` timer interrupts, at least one, a task that began with a counter of `c` has used `n` of
-- it, down to 0. It is marked for rescheduling from the interrupt on that uses the counter up, and
-- is not marked before. No other task is touched.
pub ticks_lem :
    (n p c : ℕ) (s : Kernel)
    → (s.tasks p).counter ≡ pos c
    → 0 < n
    → (((ticks n p s).tasks p).counter ≡ pos (c - n))
      × (((ticks n p s).tasks p).need_resched ≡ (if ltb n c then (s.tasks p).need_resched else 1))
      × ((q : ℕ) → q ≢ p → (ticks n p s).tasks q ≡ s.tasks q)
ticks_lem zero p c s h pos_n = absurd (omega arith)
ticks_lem (suc zero) p c s h pos_n =
    ((task_tick_lem p c s h).0, (task_tick_lem p c s h).1, λ q ne. task_tick_other p q s ne)
ticks_lem (suc (suc n)) p c s h pos_n =
    let one = task_tick_lem p c s h in
    let rest = ticks_lem (suc n) p (c - 1) (task_tick p s) one.0 (omega arith) in
    (
      ground (arith, rest.0),
      ground (arith, rest.1, one.1),
      λ q ne. rest.2 q ne ∙ task_tick_other p q s ne,
    )
