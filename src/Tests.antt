-- ===== src/Tests.antt =====
-- Tests and concrete examples: a kernel with two threads, in the first two pages, of which the first
-- runs and the second is new; and a map of memory in which those pages are used.
mod Memory
mod Lists
mod Queue
mod Switch
mod Tasks
mod Calls
mod Interrupts
mod Bytes
mod Texts
mod Whole
mod Tables
mod Reports
mod Formats
mod Devices
use arm64os.Common.{ℕ, true, if◌then◌else◌, ◌==◌, []}
use arm64os.Common.Int.{pos}
use arm64os.PageAlloc.{PageAlloc}
use arm64os.ListHead.{Links}
use arm64os.Kernel.{TaskStruct, Image, Kernel, from_schedule, run_list}
use arm64os.Fork.{zero_context, zero_task, zero_regs}

abbrev pub image : Image
image = record { rq_head = 1000; init_task = 65536; ret_from_fork = 100; switch_return = 200 }

abbrev pub first : ℕ
first = 4194304

abbrev pub second : ℕ
second = 4198400

abbrev pub two_pages : PageAlloc
two_pages = record {
  mem_map = λ i. if i == 0 then 1 else if i == 1 then 1 else 0;
  phy_start_address = 0;
}

-- The links of a queue of `second`, then `first`.
abbrev pub two_nodes : Links
two_nodes = record {
  next = λ a.
      if a == 1000 then run_list second else if a == run_list second then run_list first else 1000;
  prev = λ a.
      if a == 1000 then run_list first else if a == run_list first then run_list second else 1000;
}

abbrev pub first_task : TaskStruct
first_task = record zero_task {
  pid = 1;
  counter = pos 3;
  priority = pos 2;
  next_task = second;
  prev_task = 65536;
}

abbrev pub second_task : TaskStruct
second_task = record zero_task {
  pid = 2;
  counter = pos 7;
  priority = pos 2;
  next_task = 65536;
  prev_task = first;
  cpu_context = record zero_context { pc = 100; sp = 4202176 };
}

abbrev pub init_task : TaskStruct
init_task = record zero_task { next_task = first; prev_task = second }

abbrev pub two_tasks : ℕ → TaskStruct
two_tasks p = if p == first then first_task else if p == second then second_task else init_task

abbrev pub two_threads : Kernel
two_threads = record {
  tasks = two_tasks;
  links = two_nodes;
  nr_running = 2;
  nr_switches = 0;
  curr = first;
  cpu = record zero_context { sp = 4198000; pc = 300 };
  irq_enabled = true;
  callers = λ _. from_schedule;
  pages = two_pages;
  frames = λ _. zero_regs;
  g_task = λ i. if i == 0 then 65536 else if i == 1 then first else if i == 2 then second else 0;
  total_forks = 2;
  console = [];
}
