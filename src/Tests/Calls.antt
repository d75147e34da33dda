-- ===== src/Tests/Calls.antt =====
-- Tests of arch/arm64/kernel/syscall.c: `two_threads` with a frame that holds a call.
use arm64os.Common.{
  ℕ, ◌-◌, ◌^◌, ◌≡◌, refl, [], ◌∷◌, ◌++◌, arith, ok, fault, Returns, inr, ◌==◌, if◌then◌else◌, ◌⊎◌,
}
use arm64os.Common.Int.{negsuc, to_int}
use arm64os.PageAlloc.{get_free_page}
use arm64os.Kernel.{Kernel}
use arm64os.Fork.{zero_regs}
use arm64os.Fork.Balance.{IsRunnable, IsApart, IsNumbered}
use arm64os.Syscall.{el0_svc_handler}
use arm64os.Syscall.Dispatch.{refused, el0_svc_handler-refused, el0_svc_handler-negative}
use arm64os.Syscall.Keeps.{
  IsRunnable-frame, RunnableAfter, el0_svc_handler-clone, el0_svc_handler-RunnableAfter,
}
use arm64os.Tests.{image, two_threads}
use arm64os.Tests.Queue.{queue, ring}
use arm64os.Tests.Tasks.{two_threads-IsRunnable, third-IsApart}

abbrev calling : ℕ → Kernel
calling n = record two_threads {
  frames = λ _. record zero_regs { regs = λ i. if i == 8 then n else if i == 1 then 4096 else 0 };
}

minus_one : to_int (2 ^ 64 - 1) ≡ negsuc 0
unfolding to_int
minus_one = refl

el0_svc_handler-refused_example :
    el0_svc_handler image 64 (calling 17) ≡ ok (refused 64 (calling 17))
el0_svc_handler-refused_example =
    el0_svc_handler-refused image 64 (calling 17) (inr (omega arith, omega arith))

el0_svc_handler-negative_example : el0_svc_handler image 64 (calling (2 ^ 64 - 1)) ≡ fault
el0_svc_handler-negative_example =
    el0_svc_handler-negative image 64 (calling (2 ^ 64 - 1)) (omega arith)

calling-IsRunnable : (n : ℕ) → IsRunnable image (calling n) queue ring
calling-IsRunnable n =
    IsRunnable-frame image two_threads queue ring (calling n).frames two_threads.pages
      two_threads-IsRunnable

calling-IsApart : (n : ℕ) → IsApart image (calling n) queue ring (get_free_page (calling n).pages).0
calling-IsApart n = record {
  queued = third-IsApart.queued;
  linked = third-IsApart.linked;
  init_task = third-IsApart.init_task;
  running = third-IsApart.running;
  rq_head = third-IsApart.rq_head;
}

el0_svc_handler-clone_example : Returns (el0_svc_handler image 64 (calling 4)) (λ t.
    ((pid : ℕ) × ((t.frames 64).regs 0 ≡ pid)
      × IsNumbered (calling 4) (get_free_page (calling 4).pages).0 pid t
      × IsRunnable image t
          ((get_free_page (calling 4).pages).0 ∷ queue)
          (ring ++ (get_free_page (calling 4).pages).0 ∷ []))
    ⊎ (((t.frames 64).regs 0 ≡ 2 ^ 64 - 1) × IsRunnable image t queue ring))
el0_svc_handler-clone_example =
    el0_svc_handler-clone image 64 (calling 4) queue ring (calling-IsRunnable 4) (calling-IsApart 4)
      (omega arith) refl

el0_svc_handler-RunnableAfter_example : Returns (el0_svc_handler image 64 (calling 5)) (
    RunnableAfter image 64
      (calling 5)
      queue
      ring
      (calling-IsRunnable 5)
      (calling-IsApart 5)
      (omega arith))
el0_svc_handler-RunnableAfter_example =
    el0_svc_handler-RunnableAfter image 64 (calling 5) queue ring (calling-IsRunnable 5)
      (calling-IsApart 5) (omega arith) (omega arith)
