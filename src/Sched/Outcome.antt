-- ===== src/Sched/Outcome.antt =====
-- What the scheduler asks for, and what it leaves.
use arm64os.Common.{
  ℕ, ◌≡◌, refl, ◌≢◌, Bool, true, false, List, arith, ap, ◌∙◌, if◌then◌else◌, inl, inr, ==_iff,
}
use arm64os.Common.Int.{ℤ, pos, ◌≤ℤ◌}
use arm64os.ListHead.Ring.{has}
use arm64os.Kernel.{TaskStruct, Image, Kernel, Caller, TaskState, current}
use arm64os.SchedNop.Queue.{IsQueue}
use arm64os.SchedNop.Score.{IsTaskRing, refill, TaskChain-ext}
use arm64os.SchedNop.Pick.{Picked, refill_positive}
use arm64os.Sched.{switch_from}
use arm64os.Sched.Keeps.{rest_of, switch_from-IsSettled}
use arm64os.Sched.Preempt.{IsBalanced, IsScheduling, switch_from-IsBalanced}

-- The queue `ts` from which `pick_next_task` can choose, and the task ring `us`.
pub record IsReady (img : Image) (s : Kernel) (ts us : List ℕ) : Type 0 where
  pub queue : IsQueue img s ts
  pub some_task : ℕ
  pub some_queued : has some_task ts ≡ true
  pub ring : IsTaskRing img s.tasks us
  pub in_ring : (q : ℕ) → has q ts ≡ true → has q us ≡ true
  pub counters : (q : ℕ) → has q ts ≡ true → pos 0 ≤ℤ (s.tasks q).counter
  pub priorities : (q : ℕ) → has q ts ≡ true → pos 0 ≤ℤ (s.tasks q).priority

refill_keeps :
    (b : Bool) (t : TaskStruct)
    → ((if b then refill t else t).preempt_count ≡ t.preempt_count)
      × ((if b then refill t else t).cpu_context ≡ t.cpu_context)
refill_keeps true t = (refl, refl)
refill_keeps false t = (refl, refl)

-- The choice changes counters alone, so it keeps the threads as they wait.
Picked-IsScheduling :
    (img : Image) (s : Kernel) (ts us : List ℕ) (r : ℕ × Kernel)
    → Picked s ts us r
    → IsScheduling img ts s
    → IsScheduling img ts r.1 × (current r.1 ≡ current s)
Picked-IsScheduling img s ts us r p inv = elim p.refilled [
  | inl same ↦ (rw same inv, rw same)
  | inr (zeros, filled) ↦
      let cpu_same : r.1.cpu ≡ s.cpu = ap (λ (k : Kernel). k.cpu) p.only_tasks in
      (
        record {
          disabled =
              rw (cpu_same, filled (current s), (refill_keeps (has (current s) us) _).0)
                inv.disabled;
          waiting = λ q h ne.
              let keeps = refill_keeps (has q us) (s.tasks q) in
              rw (filled q, keeps.0, keeps.1) (inv.waiting q h (rw cpu_same at ne));
        },
        rw cpu_same,
      )
]

-- The choice changes counters alone, and leaves none below 0.
refill_rest : (b : Bool) (t : TaskStruct) → rest_of (if b then refill t else t) ≡ rest_of t
refill_rest true t = refl
refill_rest false t = refl

Picked-rest :
    (s : Kernel) (ts us : List ℕ) (r : ℕ × Kernel)
    → Picked s ts us r
    → (q : ℕ) → rest_of (r.1.tasks q) ≡ rest_of (s.tasks q)
Picked-rest s ts us r p q = elim p.refilled [
  | inl same ↦ rw same
  | inr (zeros, filled) ↦
      ap (λ (t : TaskStruct). rest_of t) (filled q) ∙ refill_rest (has q us) (s.tasks q)
]

Picked-context :
    (s : Kernel) (ts us : List ℕ) (r : ℕ × Kernel)
    → Picked s ts us r
    → (q : ℕ) → (r.1.tasks q).cpu_context ≡ (s.tasks q).cpu_context
Picked-context s ts us r p q = elim p.refilled [
  | inl same ↦ rw same
  | inr (zeros, filled) ↦
      ap (λ (t : TaskStruct). t.cpu_context) (filled q) ∙ (refill_keeps (has q us) (s.tasks q)).1
]

Picked-counters :
    (img : Image) (s : Kernel) (ts us : List ℕ) (r : ℕ × Kernel)
    → Picked s ts us r
    → IsReady img s ts us
    → (q : ℕ) → has q ts ≡ true
    → pos 0 ≤ℤ (r.1.tasks q).counter
Picked-counters img s ts us r p ready q h = elim p.refilled [
  | inl same ↦ rw same (ready.counters q h)
  | inr (zeros, filled) ↦
      let full : pos 1 ≤ℤ (refill (s.tasks q)).counter =
        refill_positive (s.tasks q) (ready.priorities q h) in
      rw (filled q, ready.in_ring q h) (omega (arith, full))
]

-- The outcome of a call of the scheduler in `s`.
pub record IsScheduled (img : Image) (ts us : List ℕ) (s t : Kernel) : Type 0 where
  pub balanced : IsBalanced img ts t
  pub ready : IsReady img t ts us
  pub next_queued : has (current t) ts ≡ true
  pub highest : (q : ℕ) → has q ts ≡ true → (t.tasks q).counter ≤ℤ (t.tasks (current t)).counter
  pub runnable : pos 1 ≤ℤ (t.tasks (current t)).counter
  pub unmarked : (t.tasks (current s)).need_resched ≡ 0
  pub kept : (q : ℕ) → rest_of (t.tasks q) ≡ rest_of (s.tasks q)
  pub contexts : (q : ℕ) → q ≢ current s → (t.tasks q).cpu_context ≡ (s.tasks q).cpu_context
  pub pages : t.pages ≡ s.pages
  pub total_forks : t.total_forks ≡ s.total_forks

pub switch_from-IsScheduled :
    (img : Image) (ts us : List ℕ) (caller : Caller) (s : Kernel) (r : ℕ × Kernel)
    → img.ret_from_fork ≢ img.switch_return
    → IsScheduling img ts s
    → IsReady img s ts us
    → Picked s ts us r
    → IsScheduled img ts us s (switch_from img caller (current s) r.0 r.1)
switch_from-IsScheduled img ts us caller s r apart inv ready p =
    let (inv1, same) = Picked-IsScheduling img s ts us r p inv in
    let t = switch_from img caller (current s) r.0 r.1 in
    let (balanced, arrived) =
      rw same at (switch_from-IsBalanced img ts caller r.0 r.1 apart p.queued inv1) in
    let settled = switch_from-IsSettled img caller (current s) r.0 r.1 in
    let counter : (q : ℕ) → (t.tasks q).counter ≡ (r.1.tasks q).counter =
      λ q. ap (λ (c : ℤ × ℤ × ℕ × ℕ × TaskState). c.0) (settled.core q) in
    let kept : (q : ℕ) → rest_of (t.tasks q) ≡ rest_of (s.tasks q) = λ q.
      ap (λ (c : ℤ × ℤ × ℕ × ℕ × TaskState). (c.1, c.2, c.3, c.4)) (settled.core q)
      ∙ Picked-rest s ts us r p q in
    record {
      balanced = balanced;
      ready = record {
        queue = record {
          ring = rw (settled.links ∙ ap (λ (k : Kernel). k.links) p.only_tasks) ready.queue.ring;
          counted =
              settled.nr_running
              ∙ ap (λ (k : Kernel). k.nr_running) p.only_tasks
              ∙ ready.queue.counted;
        };
        some_task = ready.some_task;
        some_queued = ready.some_queued;
        ring = record {
          chain =
              TaskChain-ext s.tasks t.tasks img.init_task img.init_task us
                (λ q. ap (λ (c : ℤ × ℕ × ℕ × TaskState). c.1) (kept q)) ready.ring.chain;
          distinct = ready.ring.distinct;
          init_out = ready.ring.init_out;
        };
        in_ring = ready.in_ring;
        counters = λ q h. rw (counter q) (Picked-counters img s ts us r p ready q h);
        priorities =
            λ q h. rw (ap (λ (c : ℤ × ℕ × ℕ × TaskState). c.0) (kept q)) (ready.priorities q h);
      };
      next_queued = rw arrived p.queued;
      highest = λ q h. rw (arrived, counter q, counter r.0) (p.highest q h);
      runnable = rw (arrived, counter r.0) p.runnable;
      unmarked = settled.marks (current s) ∙ (rw ((==_iff (current s) (current s)).1 refl));
      kept = kept;
      contexts = λ q ne. settled.contexts q ne ∙ Picked-context s ts us r p q;
      pages = settled.pages ∙ ap (λ (k : Kernel). k.pages) p.only_tasks;
      total_forks = settled.total_forks ∙ ap (λ (k : Kernel). k.total_forks) p.only_tasks;
    }
