-- ===== src/System/Ticks.antt =====
-- What each kind of step keeps.
use arm64os.Common.{ℕ, ◌≡◌, inr, List, arith, ap, ◌∙◌, ok}
use arm64os.Common.Int.{ℤ, pos, ◌≤ℤ◌}
use arm64os.Kernel.{Image, Kernel, TaskState, current}
use arm64os.SchedNop.{task_tick}
use arm64os.SchedNop.Score.{IsTaskRing, TaskChain-ext}
use arm64os.Sched.{tick_handle_periodic}
use arm64os.Sched.Outcome.{IsScheduled}
use arm64os.System.Spare.{IsSystem}

pub ok-injective {ℓ} : {A : Type ℓ} {x y : A} → ok x ≡ ok y → x ≡ y
ok-injective {x} e = ap (λ r. elim r [ ok z ↦ z | _ ↦ x ]) e

-- A tick changes the counter and the mark of the running task, and no counter falls below 0.
pub record Ticked (s t : Kernel) : Type 0 where
  tasks :
      (q : ℕ)
      → t.tasks q ≡ record (s.tasks q) {
        counter = (t.tasks q).counter;
        need_resched = (t.tasks q).need_resched;
      }
  counters : (q : ℕ) → pos 0 ≤ℤ (s.tasks q).counter → pos 0 ≤ℤ (t.tasks q).counter
  rest : t ≡ record s { tasks = t.tasks; console = t.console }

pub tick-Ticked : (s : Kernel) → Ticked s (tick_handle_periodic s)
unfolding tick_handle_periodic task_tick
tick-Ticked s = record {
  tasks = λ q. ground arith;
  counters = λ q h. ground arith;
  rest = ground arith;
}

module _ (img : Image) (s : Kernel) (ts us : List ℕ) (inv : IsSystem img s ts us) where
  pub Ticked-IsSystem : (t : Kernel) → Ticked s t → IsSystem img t ts us
  Ticked-IsSystem t k =
      let cpu_same : t.cpu ≡ s.cpu = ap (λ (x : Kernel). x.cpu) k.rest in
      let r = inv.runnable in
      let ring : IsTaskRing img t.tasks us = record {
        chain =
            TaskChain-ext s.tasks t.tasks img.init_task img.init_task us (λ q. rw (k.tasks q))
              r.linked.ring.chain;
        distinct = r.linked.ring.distinct;
        init_out = r.linked.ring.init_out;
      } in
      record {
        runnable = record {
          balanced = record {
            preemptible = rw (cpu_same, k.tasks (current s)) r.balanced.preemptible;
            waiting = λ q h ne. rw (k.tasks q) (r.balanced.waiting q h (rw cpu_same at ne));
          };
          ready = record {
            queue = record {
              ring = rw (ap (λ (x : Kernel). x.links) k.rest) r.ready.queue.ring;
              counted = ap (λ (x : Kernel). x.nr_running) k.rest ∙ r.ready.queue.counted;
            };
            some_task = r.ready.some_task;
            some_queued = r.ready.some_queued;
            ring = ring;
            in_ring = r.ready.in_ring;
            counters = λ q h. k.counters q (r.ready.counters q h);
            priorities = λ q h. rw (k.tasks q) (r.ready.priorities q h);
          };
          linked = record { ring = ring; last = rw (k.tasks img.init_task) r.linked.last };
          counter = rw cpu_same (k.counters (current s) r.counter);
        };
        owned = λ q h. rw (ap (λ (x : Kernel). x.pages) k.rest) (inv.owned q h);
        is_current = rw cpu_same inv.is_current;
        current_running = rw (cpu_same, k.tasks (current s)) inv.current_running;
        running = λ q h. rw (k.tasks q) (inv.running q h);
        forks = ap (λ (x : Kernel). x.total_forks) k.rest ∙ inv.forks;
      }

  pub Scheduled-IsSystem : (t : Kernel) → IsScheduled img ts us s t → IsSystem img t ts us
  Scheduled-IsSystem t o = record {
    runnable = record {
      balanced = o.balanced;
      ready = o.ready;
      linked = record {
        ring = o.ready.ring;
        last =
            ap (λ (c : ℤ × ℕ × ℕ × TaskState). c.2) (o.kept img.init_task)
            ∙ inv.runnable.linked.last;
      };
      counter = omega (arith, o.runnable);
    };
    owned = λ q h. rw o.pages (inv.owned q h);
    is_current = inr (o.ready.in_ring (current t) o.next_queued);
    current_running =
        ap (λ (c : ℤ × ℕ × ℕ × TaskState). c.3) (o.kept (current t))
        ∙ inv.running (current t) o.next_queued;
    running = λ q h. ap (λ (c : ℤ × ℕ × ℕ × TaskState). c.3) (o.kept q) ∙ inv.running q h;
    forks = o.total_forks ∙ inv.forks;
  }
