-- ===== src/Tests/Whole.antt =====
-- A run of the kernel as a whole: `two_threads`, of which the timer interrupts the first.
use arm64os.Common.{ℕ, ◌≡◌, refl, true, inl, inr, arith, List, Returns, Bool-cases, ==_iff, ◌==◌}
use arm64os.ListHead.Ring.{has}
use arm64os.Kernel.{Kernel}
use arm64os.Sched.{tick_handle_periodic, schedule}
use arm64os.Sched.Outcome.{IsScheduled}
use arm64os.SchedNop.{task_tick}
use arm64os.System.{stay, go, tick}
use arm64os.System.Spare.{IsPlaced, Owned, IsSystem}
use arm64os.System.Reach.{Reaches-IsSystem, Reaches-schedule}
use arm64os.Tests.{image, first, two_threads}
use arm64os.Tests.Queue.{queue, ring, queue-cases}
use arm64os.Tests.Tasks.{two_threads-IsRunnable}

image-IsPlaced : IsPlaced image
image-IsPlaced = record {
  apart = omega arith;
  init_set = omega arith;
  init_out = λ j h. omega arith;
  head_set = omega arith;
  head_out = λ j h. omega arith;
}

ring-Owned : (q : ℕ) → has q ring ≡ true → Owned two_threads.pages q
ring-Owned q h = elim (Bool-cases (q == first)) [
  | inl e ↦ (0, omega arith, (==_iff q first).0 e, omega arith)
  | inr n ↦ (1, omega arith, ground arith, omega arith)
]

two_threads-IsSystem : IsSystem image two_threads queue ring
two_threads-IsSystem = record {
  runnable = two_threads-IsRunnable;
  owned = ring-Owned;
  is_current = inr refl;
  current_running = refl;
  running = λ q h. elim (queue-cases q h) [ inl e ↦ rw e | inr e ↦ rw e ];
  forks = refl;
}

abbrev ticked : Kernel
ticked = tick_handle_periodic two_threads

Reaches-IsSystem_example : (ts : List ℕ) × (us : List ℕ) × IsSystem image ticked ts us
Reaches-IsSystem_example =
    Reaches-IsSystem image two_threads ticked queue ring image-IsPlaced two_threads-IsSystem
      (go (stay two_threads) (tick two_threads))

ticked_counts : (ticked.nr_running ≡ 2) × (ticked.total_forks ≡ 2)
unfolding tick_handle_periodic task_tick
ticked_counts = (refl, refl)

Reaches-schedule_example :
    (ts : List ℕ) × (us : List ℕ) × IsSystem image ticked ts us
    × Returns (schedule image 3 2 ticked) (IsScheduled image ts us ticked)
Reaches-schedule_example =
    Reaches-schedule image two_threads ticked queue ring 3 image-IsPlaced two_threads-IsSystem
      (go (stay two_threads) (tick two_threads)) (rw ticked_counts.0 (omega arith))
      (rw ticked_counts.1 (omega arith))
