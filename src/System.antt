-- ===== src/System.antt =====
-- The kernel as a whole: the steps that it takes from one moment outside of the scheduler to the next,
-- as a relation on its state. A step is a tick of the timer, a call of `schedule`, a preemption on the
-- return from an interrupt, a fork by the kernel, or a system call. The bounds keep the counts of
-- running threads and of forks from wrapping.
pub mod Spare
pub mod Ticks
pub mod Forks
pub mod Calls
pub mod Reach
use arm64os.Common.{ℕ, ◌+◌, ◌^◌, ◌<◌, ◌≡◌, ok}
use arm64os.Common.Int.{ℤ}
use arm64os.Kernel.{Image, Kernel}
use arm64os.Sched.{tick_handle_periodic, schedule, preempt_schedule_irq}
use arm64os.Fork.{do_fork}
use arm64os.Syscall.{el0_svc_handler}

pub data Step (img : Image) : Kernel → Kernel → Type 0 where
  tick : (s : Kernel) → Step img s (tick_handle_periodic s)
  yield :
      {s t : Kernel} (fuel : ℕ)
      → s.nr_running < fuel
      → s.total_forks < fuel
      → schedule img fuel 2 s ≡ ok t
      → Step img s t
  preempt :
      {s t : Kernel} (fuel : ℕ)
      → s.nr_running < fuel
      → s.total_forks < fuel
      → preempt_schedule_irq img fuel 2 s ≡ ok t
      → Step img s t
  fork :
      {s t : Kernel} {pid : ℤ} (clone_flags stack arg : ℕ)
      → s.nr_running + 1 < 2 ^ 32
      → s.total_forks + 1 < 2 ^ 64
      → do_fork img clone_flags stack arg s ≡ ok (pid, t)
      → Step img s t
  syscall :
      {s t : Kernel} (regs : ℕ)
      → (s.frames regs).regs 8 < 2 ^ 31
      → s.nr_running + 1 < 2 ^ 32
      → s.total_forks + 1 < 2 ^ 64
      → el0_svc_handler img regs s ≡ ok t
      → Step img s t

pub data Reaches (img : Image) : Kernel → Kernel → Type 0 where
  stay : (s : Kernel) → Reaches img s s
  go : {s t u : Kernel} → Reaches img s t → Step img t u → Reaches img s u
