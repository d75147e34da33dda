-- ===== src/Tests/Tasks.antt =====
-- Tests of kernel/fork.c.
use arm64os.Common.{ℕ, ◌≡◌, refl, [], ◌∷◌, ◌++◌, arith, Returns, ◌⊎◌}
use arm64os.Common.Int.{pos, negsuc}
use arm64os.PageAlloc.{get_free_page}
use arm64os.Fork.{do_fork}
use arm64os.Fork.Links.{IsLinked}
use arm64os.Fork.Create.{page}
use arm64os.Fork.Balance.{IsRunnable, IsApart, do_fork-IsRunnable}
use arm64os.Tests.Switch.{two_threads-IsBalanced, two_threads-IsReady}
use arm64os.Tests.{image, two_threads, two_tasks}
use arm64os.Tests.Queue.{queue, ring, two_threads-IsTaskRing}

pub two_threads-IsLinked : IsLinked image two_tasks ring
two_threads-IsLinked = record { ring = two_threads-IsTaskRing; last = refl }

free_page_is : page image 1 500 0 two_threads ≡ 4202496
unfolding get_free_page
free_page_is = refl

pub two_threads-IsRunnable : IsRunnable image two_threads queue ring
two_threads-IsRunnable = record {
  balanced = two_threads-IsBalanced;
  ready = two_threads-IsReady;
  linked = two_threads-IsLinked;
  counter = omega arith;
}

pub third-IsApart : IsApart image two_threads queue ring (page image 1 500 0 two_threads)
third-IsApart = rw free_page_is (record {
  queued = refl;
  linked = refl;
  init_task = omega arith;
  running = omega arith;
  rq_head = omega arith;
})

do_fork-IsRunnable_example : Returns (do_fork image 1 500 0 two_threads) (λ r.
    ((pid : ℕ) × (r.0 ≡ pos pid)
      × IsRunnable image r.1
          (page image 1 500 0 two_threads ∷ queue)
          (ring ++ page image 1 500 0 two_threads ∷ []))
    ⊎ ((r.0 ≡ negsuc 0) × IsRunnable image r.1 queue ring))
do_fork-IsRunnable_example =
    do_fork-IsRunnable image 1 500 0 two_threads queue ring two_threads-IsRunnable third-IsApart
      (omega arith)
