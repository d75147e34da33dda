-- ===== src/Fork/Copy.antt =====
-- What `copy_thread` sets up for a new task.
use arm64os.Common.{ℕ, ◌≡◌, ◌≢◌, Bool, true, arith, ◌==◌, if◌then◌else◌, bit_and}
use arm64os.Kernel.{Image, Kernel}
use arm64os.Fork.{pf_kthread, copy_thread, task_pt_regs}

-- Whether `copy_thread` takes these arguments: a kernel thread, no stack, or an aligned stack.
abbrev pub accepts : (clone_flags stack : ℕ) → Bool
accepts clone_flags stack =
    if bit_and clone_flags pf_kthread == 0
    then (if stack == 0 then true else bit_and stack 15 == 0)
    else true

pub copy_thread-accepts :
    (img : Image) (clone_flags p stack arg : ℕ) (s : Kernel)
    → (copy_thread img clone_flags p stack arg s).0 ≡ accepts clone_flags stack
unfolding copy_thread
copy_thread-accepts img clone_flags p stack arg s = ground arith

-- What `copy_thread` leaves alone: all but one frame and one context.
pub record CopyKeeps (p : ℕ) (s t : Kernel) : Type 0 where
  pub tasks : (q : ℕ) → t.tasks q ≡ record (s.tasks q) { cpu_context = (t.tasks q).cpu_context }
  pub others : (q : ℕ) → q ≢ p → t.tasks q ≡ s.tasks q
  pub frames : (a : ℕ) → a ≢ task_pt_regs p → t.frames a ≡ s.frames a
  pub rest : t ≡ record s { tasks = t.tasks; frames = t.frames }

pub copy_thread-CopyKeeps :
    (img : Image) (clone_flags p stack arg : ℕ) (s : Kernel)
    → CopyKeeps p s (copy_thread img clone_flags p stack arg s).1
unfolding copy_thread
copy_thread-CopyKeeps img clone_flags p stack arg s = record {
  tasks = λ q. ground arith;
  others = λ q h. ground arith;
  frames = λ a h. ground arith;
  rest = ground arith;
}

-- A new thread begins in `ret_from_fork`, with its stack below the frame at the top of its page.
pub copy_thread-context :
    (img : Image) (clone_flags p stack arg : ℕ) (s : Kernel)
    → (copy_thread img clone_flags p stack arg s).0 ≡ true
    → (((copy_thread img clone_flags p stack arg s).1.tasks p).cpu_context.pc ≡ img.ret_from_fork)
      × (((copy_thread img clone_flags p stack arg s).1.tasks p).cpu_context.sp ≡ task_pt_regs p)
unfolding copy_thread
copy_thread-context img clone_flags p stack arg s h = (ground arith, ground arith)
