-- ===== src/Tests/Queue.antt =====
-- Tests of kernel/sched_nop.c.
use arm64os.Common.{ℕ, ◌≡◌, refl, true, List, [], ◌∷◌, arith, ◌⊎◌, inl, inr, fault, Returns}
use arm64os.Common.Int.{pos, ◌≤ℤ◌}
use arm64os.ListHead.{init_list_head}
use arm64os.ListHead.Laws.{init-IsRing}
use arm64os.ListHead.Ring.{has}
use arm64os.Kernel.{Kernel}
use arm64os.SchedNop.{dequeue_task, reset_score, pick_next_task}
use arm64os.SchedNop.Queue.{IsQueue, dequeue_task-IsQueue}
use arm64os.SchedNop.Score.{IsTaskRing, Refilled, reset_score-Refilled}
use arm64os.SchedNop.Pick.{Picked, pick_next_task-Picked, pick_next_task-empty}
use arm64os.Tests.{image, first, second, two_threads}
use arm64os.Tests.Lists.{two_nodes-IsRing}

abbrev pub queue : List ℕ
queue = second ∷ first ∷ []

abbrev pub ring : List ℕ
ring = first ∷ second ∷ []

pub two_threads-IsQueue : IsQueue image two_threads queue
two_threads-IsQueue = record { ring = two_nodes-IsRing; counted = refl }

pub two_threads-IsTaskRing : IsTaskRing image two_threads.tasks ring
two_threads-IsTaskRing = record {
  chain = (refl, (refl, refl));
  distinct = (refl, (refl, tt));
  init_out = refl;
}

dequeue_task-IsQueue_example : IsQueue image (dequeue_task first two_threads) (second ∷ [])
dequeue_task-IsQueue_example =
    dequeue_task-IsQueue image two_threads first queue two_threads-IsQueue refl (omega arith)

reset_score-Refilled_example :
    Returns
      (reset_score image 3 two_threads)
      (λ t. Refilled ring two_threads.tasks t.tasks × (t ≡ record two_threads { tasks = t.tasks }))
reset_score-Refilled_example =
    reset_score-Refilled image 3 two_threads ring two_threads-IsTaskRing (omega arith)

pub queue-cases : (q : ℕ) → has q queue ≡ true → (q ≡ second) ⊎ (q ≡ first)
queue-cases q h = ground arith

pub queued-ring : (q : ℕ) → has q queue ≡ true → has q ring ≡ true
queued-ring q h = elim (queue-cases q h) [ inl e ↦ rw e | inr e ↦ rw e ]

pub queued-counter : (q : ℕ) → has q queue ≡ true → pos 0 ≤ℤ (two_threads.tasks q).counter
queued-counter q h = elim (queue-cases q h) [
  | inl e ↦ rw e (omega arith)
  | inr e ↦ rw e (omega arith)
]

pub queued-priority : (q : ℕ) → has q queue ≡ true → pos 0 ≤ℤ (two_threads.tasks q).priority
queued-priority q h = elim (queue-cases q h) [
  | inl e ↦ rw e (omega arith)
  | inr e ↦ rw e (omega arith)
]

pick_next_task-Picked_example :
    Returns (pick_next_task image 3 2 two_threads) (Picked two_threads queue ring)
pick_next_task-Picked_example =
    pick_next_task-Picked image two_threads queue ring 3 0 first two_threads-IsQueue refl
      two_threads-IsTaskRing queued-ring queued-counter queued-priority (omega arith) (omega arith)

abbrev no_queue : Kernel
no_queue = record two_threads { links = init_list_head 1000 two_threads.links; nr_running = 0 }

pick_next_task-empty_example : pick_next_task image 1 1 no_queue ≡ fault
pick_next_task-empty_example =
    pick_next_task-empty image no_queue 0 0
      (record { ring = init-IsRing 1000 two_threads.links; counted = refl })
