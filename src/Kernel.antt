-- ===== src/Kernel.antt =====
-- The kernel state that the scheduler, fork and the system calls share, from include/sched.h,
-- arch/arm64/include/asm/processor.h, asm/system.h and asm/current.h. Structures in memory are
-- functions from their address. `int` values that may fall below zero are integers; their overflow,
-- which C leaves undefined, is not modelled.
use arm64os.Common.{ℕ, ◌+◌, ◌-◌, ◌*◌, Bool, List, ◌∷◌, update}
use arm64os.Common.Int.{ℤ}
use arm64os.Common.Bits.{and_not}
use arm64os.ListHead.{Links}
use arm64os.PageAlloc.{PageAlloc, page_size}

abbrev pub thread_size : ℕ
thread_size = 1 * page_size

pub record CpuContext : Type 0 where
  pub x19 : ℕ
  pub x20 : ℕ
  pub x21 : ℕ
  pub x22 : ℕ
  pub x23 : ℕ
  pub x24 : ℕ
  pub x25 : ℕ
  pub x26 : ℕ
  pub x27 : ℕ
  pub x28 : ℕ
  pub fp : ℕ
  pub sp : ℕ
  pub pc : ℕ

pub data TaskState : Type 0 where
  task_running task_interruptible task_uninterruptible task_zombie task_stopped : TaskState

-- `run_list` lies in `Kernel.links`, at the address `run_list p`.
pub record TaskStruct : Type 0 where
  pub state : TaskState
  pub flags : ℕ
  pub pid : ℕ
  pub cpu_context : CpuContext
  pub counter : ℤ
  pub priority : ℤ
  pub need_resched : ℕ
  pub preempt_count : ℤ
  pub next_task : ℕ
  pub prev_task : ℕ

pub record PtRegs : Type 0 where
  pub regs : ℕ → ℕ
  pub sp : ℕ
  pub pc : ℕ
  pub pstate : ℕ
  pub orig_x0 : ℕ
  pub syscallno : ℕ

-- What the kernel prints on the modelled paths.
pub data Message : Type 0 where
  need_resched_of : (pid : ℕ) → Message
  scheduling_while_atomic : (pid : ℕ) → ℤ → Message
  incorrect_preempt_count : ℤ → Message

-- The function in which a thread called `__schedule`: what lies on its kernel stack.
pub data Caller : Type 0 where
  from_schedule from_preempt_schedule_irq : Caller

-- The addresses that the linker gives to the objects of the image. `switch_return` is the return
-- address of the call of `cpu_switch_to` in `switch_to`.
pub record Image : Type 0 where
  pub rq_head : ℕ
  pub init_task : ℕ
  pub ret_from_fork : ℕ
  pub switch_return : ℕ

pub record Kernel : Type 0 where
  pub tasks : ℕ → TaskStruct
  pub links : Links
  pub nr_running : ℕ
  pub nr_switches : ℕ
  pub curr : ℕ
  pub cpu : CpuContext
  pub irq_enabled : Bool
  pub callers : ℕ → Caller
  pub pages : PageAlloc
  pub frames : ℕ → PtRegs
  pub g_task : ℕ → ℕ
  pub total_forks : ℕ
  pub console : List Message

-- `current`: the task at the bottom of the kernel stack.
abbrev pub current : Kernel → ℕ
current s = and_not s.cpu.sp (thread_size - 1)

-- The addresses of `p->run_list`, and of the task that holds a node (`list_entry`). A node lies
-- inside of its task, so neither sum wraps.
abbrev pub run_list : ℕ → ℕ
run_list p = p + 120

abbrev pub list_entry : ℕ → ℕ
list_entry node = node - 120

abbrev pub set_task : ℕ → TaskStruct → Kernel → Kernel
set_task p t s = record s { tasks = update s.tasks p t }

abbrev pub printk : Message → Kernel → Kernel
printk m s = record s { console = m ∷ s.console }
