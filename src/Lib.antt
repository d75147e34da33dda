-- ===== src/Lib.antt =====
-- A model of Arm64OS, a small kernel for the Raspberry Pi, and what it is proved to do.
--
-- The program. The kernel runs threads on one processor. A thread is a page that holds its
-- `task_struct` at the bottom and its kernel stack above, with a register frame at the top; `current` is
-- found from the stack pointer. Pages come from a map of used pages (mm/page_alloc.c). Threads wait in
-- a circular list (include/list.h) that the one scheduling class keeps (kernel/sched_nop.c); the core
-- of the scheduler (kernel/sched.c) switches between them. New threads are made by fork
-- (kernel/fork.c), from the kernel or by a system call (arch/arm64/kernel/syscall.c). Interrupts are
-- described and dispatched by kernel/irq.c, for the controller that drivers/irqchip/gicv2.c drives; the
-- timer's handler charges the running thread for its time, and the return from an interrupt calls the
-- scheduler. The page tables map the kernel, its memory and the devices to themselves
-- (arch/arm64/mach-rpi/mmu.c), and can be printed (dump_pgtable.c). arch/arm64/kernel/traps.c and
-- cacheinfo.c report exceptions and caches. lib/string.c has the functions on bytes; lib/printk.c makes
-- the text that goes to the serial port (arch/arm64/mach-rpi/pl_uart.c).
--
-- The files.
--   Common: tests on numbers, lists, signed integers, runs that fault or loop, bit operations, calls of
--     `printk`.
--   PageAlloc: mm/page_alloc.c. Alloc and Init prove what its operations do, Search is the loop.
--   PageTable: the entries of arch/arm64/include/asm/pgtable.h and the mappings of
--     arch/arm64/mach-rpi/mmu.c. Walk describes what the hardware does with tables. Labels is the
--     invariant that each page is a table at one place, Frame says which walks a change leaves alone,
--     Entry is about bits, Mapped, Write, Fresh and Fill about single steps, Run and Loops about loops,
--     Create about whole calls.
--   Mmu: the rest of mmu.c, with the attributes of pgtable_prot.h. Attributes says what attributes
--     and registers mean, Start is about `paging_init`.
--   Dump: arch/arm64/mach-rpi/dump_pgtable.c, its dump in Lines. Entry is about the walk to one entry,
--     Unit about sizes, Shown and Levels about what the dump shows, Whole about whole dumps.
--   ListHead: include/list.h, as functions on a store of links. Ring says what a list is, Laws that
--     the operations keep it.
--   Kernel: the state of include/sched.h, asm/processor.h and asm/system.h that the next files share.
--   SchedNop: kernel/sched_nop.c. Queue, Score, Pick and Tick are about the queue, the time slices, the
--     choice of a thread, and the timer.
--   Sched: kernel/sched.c, with cpu_switch_to of arch/arm64/kernel/entry.S. Switch is about the
--     context switch, Preempt about preemption counts, Keeps about what it leaves alone, Outcome and
--     Schedule about the scheduler as a whole.
--   Fork: kernel/fork.c. Find, Links, Copy and Start are about its parts, Create about all paths of
--     do_fork, Balance about what the scheduler relies on.
--   Syscall: arch/arm64/kernel/syscall.c, with the numbers of include/uapi/syscall.h. Dispatch and
--     Results are about what a call returns, Keeps about what the scheduler relies on.
--   System: the kernel as a whole, as a relation of steps. Spare, Ticks, Forks and Calls are about the
--     kinds of steps, Reach about runs.
--   Irq: the data of include/irq.h, with the state of the timers. Core models kernel/irq.c, Chip and Gic drivers/irqchip/gicv2.c.
--     Descs, Init, Request and Handle are about descriptors, the start, and handlers.
--   Traps: arch/arm64/kernel/traps.c. Decode is about what is printed of a syndrome.
--   Cache: arch/arm64/kernel/cacheinfo.c. Levels is about the levels that are counted and their sizes.
--   Uart: arch/arm64/mach-rpi/pl_uart.c. Send and Receive are about what goes out and what comes in.
--   Timer: arch/arm64/mach-rpi/timer.c. Tick is about its start, Interrupt about an interrupt from
--     kernel/irq.c down to the time of the running thread.
--   Boot: init/main.c in part, and arch/arm64/kernel/arm64_irq.c. Par is about translations and
--     about `test_mmu`.
--   Memory: lib/string.c. Bytes is about its loops, Fill about memset.
--   Printk: lib/printk.c. Digits and Width are about the text of a number, Log about the log of early
--     messages. Scanner and Format model myprintf: Format.Scan is about reading a directive, Pad, Integer
--     and Steps about one conversion. Number describes the text of a number without the code that writes
--     it, and compares the two; Render says what directives show, Whole and Percent are about whole formats.
--   Tests: concrete runs.
--
-- How the code is rendered. Structures in memory are functions from their address. Unsigned integers
-- wrap where the code lets them; `int` values that can be negative are integers, and their overflow,
-- which C leaves undefined, is not modelled. A null or unset pointer that is used, and an index outside
-- of its array, is a fault. Loops over links, loops that compare addresses, and loops that wait for a
-- device run on fuel: one round more than the elements they visit, or than the reads until the device
-- is ready, is enough, which the theorems about them state as a bound; counted loops need none. After a
-- switch of threads the model goes on with what the new thread does, up to its return from the function
-- in which it had entered the scheduler.
--
-- Not modelled: interrupts that arrive inside of the scheduler; what handlers of interrupts do but for
-- the timer's, a parameter; what the controller's registers hold, a parameter; the text that is printed
-- is only made by `printk`, elsewhere what is printed is a list of its calls or of messages; barriers
-- and the upkeep of caches; `start_kernel`; assembly but for cpu_switch_to.
pub mod Common
pub mod PageAlloc
pub mod PageTable
pub mod Mmu
pub mod Dump
pub mod ListHead
pub mod Kernel
pub mod SchedNop
pub mod Sched
pub mod Fork
pub mod Syscall
pub mod Irq
pub mod Traps
pub mod Cache
pub mod Uart
pub mod Timer
pub mod Boot
pub mod Memory
pub mod Printk
pub mod System
pub mod Tests
