-- ===== src/SchedNop/Queue.antt =====
-- The run queue as a list of tasks.
use arm64os.Common.{
  ℕ, suc, ◌+◌, ◌^◌, ◌<◌, ◌≡◌, refl, ◌≢◌, true, false, List, [], ◌∷◌, map, arith, ◌∙◌, length,
}
use arm64os.ListHead.Ring.{has, remove, IsRing}
use arm64os.ListHead.Laws.{list_add-IsRing, list_del-IsRing}
use arm64os.Kernel.{Image, Kernel, run_list}
use arm64os.SchedNop.{enqueue_task, dequeue_task}

-- The run queue holds the tasks `ts`, the newest first.
pub record IsQueue (img : Image) (s : Kernel) (ts : List ℕ) : Type 0 where
  pub ring : IsRing s.links img.rq_head (map run_list ts)
  pub counted : s.nr_running ≡ length ts

pub has-run_list : (p : ℕ) (ts : List ℕ) → has (run_list p) (map run_list ts) ≡ has p ts
has-run_list p [] = refl
has-run_list p (t ∷ ts) = ground (arith, has-run_list p ts)

remove-run_list :
    (p : ℕ) (ts : List ℕ) → remove (run_list p) (map run_list ts) ≡ map run_list (remove p ts)
remove-run_list p [] = refl
remove-run_list p (t ∷ ts) = ground (arith, remove-run_list p ts)

length-remove : (p : ℕ) (ts : List ℕ) → has p ts ≡ true → suc (length (remove p ts)) ≡ length ts
length-remove p [] h = cc
length-remove p (t ∷ ts) h = ground (arith, length-remove p ts)

module _ (img : Image) (s : Kernel) (p : ℕ) (ts : List ℕ) (q : IsQueue img s ts) where
  -- Enqueueing a task that is not queued, and whose node is not the head of the queue, puts it first
  -- and counts it, if the count has room.
  pub enqueue_task-IsQueue :
      has p ts ≡ false
      → run_list p ≢ img.rq_head
      → length ts + 1 < 2 ^ 32
      → IsQueue img (enqueue_task img p s) (p ∷ ts)
  unfolding enqueue_task
  enqueue_task-IsQueue out ne small = record {
    ring =
        list_add-IsRing s.links (run_list p) img.rq_head (map run_list ts) q.ring
          (has-run_list p ts ∙ out) ne;
    counted = omega (arith, q.counted);
  }

  -- Dequeueing a queued task takes out that task alone, and counts one less; the queue must not hold
  -- 2 ^ 32 tasks.
  pub dequeue_task-IsQueue :
      has p ts ≡ true → length ts < 2 ^ 32 → IsQueue img (dequeue_task p s) (remove p ts)
  unfolding dequeue_task
  dequeue_task-IsQueue h small = record {
    ring =
        rw (← remove-run_list p ts)
          (list_del-IsRing s.links (run_list p) img.rq_head (map run_list ts) q.ring
            (has-run_list p ts ∙ h)).0;
    counted = omega (arith, q.counted, length-remove p ts h);
  }
