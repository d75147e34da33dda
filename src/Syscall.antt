-- ===== src/Syscall.antt =====
-- arch/arm64/kernel/syscall.c, with the numbers of include/uapi/syscall.h: the dispatch of a system
-- call. `regs` is the address of the register frame of the call, whose contents are
-- `Kernel.frames regs`.
pub mod Dispatch
pub mod Results
pub mod Keeps
use arm64os.Common.{
  ℕ, ◌-◌, ◌%◌, ◌^◌, if◌then◌else◌, ◌==◌, update, Option, none, some, Result, ok, fault, ◌>>=◌,
}
use arm64os.Common.Int.{ℤ, pos, negsuc, ltb_ℤ, to_int}
use arm64os.PageAlloc.{get_free_page}
use arm64os.Kernel.{Image, Kernel}
use arm64os.Fork.{set_frame, do_fork}

-- The conversions from `int` to `u32` and from `long` to `u64`.
unfoldable pub to_u32 : ℤ → ℕ
to_u32 (pos n) = n % 2 ^ 32
to_u32 (negsuc n) = 2 ^ 32 - 1 - n % 2 ^ 32

unfoldable pub to_u64 : ℤ → ℕ
to_u64 (pos n) = n % 2 ^ 64
to_u64 (negsuc n) = 2 ^ 64 - 1 - n % 2 ^ 64

-- The functions that `syscall_table` points to.
pub data SyscallFn : Type 0 where
  sys_open sys_close sys_read sys_write sys_clone sys_malloc : SyscallFn

abbrev pub nr_syscalls : ℕ
nr_syscalls = 6

unfoldable pub syscall_table : ℕ → Option SyscallFn
syscall_table n =
    if n == 0
    then some sys_open
    else if n == 1
    then some sys_close
    else if n == 2
    then some sys_read
    else if n == 3
    then some sys_write
    else if n == 4
    then some sys_clone
    else if n == 5
    then some sys_malloc
    else none

-- `sys_ni_syscall`
unfoldable pub sys_ni_syscall : ℤ
sys_ni_syscall = negsuc 0

-- `__arm64_sys_malloc`. An address of a page is below 2 ^ 63.
unfoldable pub arm64_sys_malloc : Kernel → ℤ × Kernel
arm64_sys_malloc s =
    let (addr, pages) = get_free_page s.pages in
    let s1 = record s { pages = pages } in if addr == 0 then (negsuc 0, s1) else (pos addr, s1)

-- `__arm64_sys_clone`
unfoldable pub arm64_sys_clone : Image → (regs : ℕ) → Kernel → Result (ℤ × Kernel)
arm64_sys_clone img regs s = let r = s.frames regs in do_fork img (r.regs 0) (r.regs 1) (r.regs 2) s

-- The call through the table. The first four do nothing and return -1.
unfoldable pub call : Image → SyscallFn → (regs : ℕ) → Kernel → Result (ℤ × Kernel)
call img sys_open regs s = ok (negsuc 0, s)
call img sys_close regs s = ok (negsuc 0, s)
call img sys_read regs s = ok (negsuc 0, s)
call img sys_write regs s = ok (negsuc 0, s)
call img sys_clone regs s = arm64_sys_clone img regs s
call img sys_malloc regs s = ok (arm64_sys_malloc s)

-- The entry of the table at an `int`; outside of the table the read is a fault.
unfoldable pub table_entry : ℤ → Result SyscallFn
table_entry (pos n) = elim (syscall_table n) [ none ↦ fault | some fn ↦ ok fn ]
table_entry (negsuc n) = fault

-- `regs->regs[0] = ret`
unfoldable pub set_result : (regs : ℕ) → ℤ → Kernel → Kernel
set_result regs ret s =
    let r = s.frames regs in set_frame regs (record r { regs = update r.regs 0 (to_u64 ret) }) s

unfoldable pub invoke_syscall : Image → (regs : ℕ) → ℤ → Kernel → Result Kernel
invoke_syscall img regs syscall_no s = do
  (ret, s1) ←
      if ltb_ℤ syscall_no (pos nr_syscalls)
      then (do fn ← table_entry syscall_no; call img fn regs s)
      else ok (sys_ni_syscall, s)
  ok (set_result regs ret s1)

-- `el0_syscall_common`: the assignments ahead of the call.
unfoldable pub note_syscall : (regs : ℕ) → ℤ → Kernel → Kernel
note_syscall regs syscall_no s =
    let r = s.frames regs in
    set_frame regs (record r { orig_x0 = r.regs 0; syscallno = to_u32 syscall_no }) s

unfoldable pub el0_syscall_common : Image → (regs : ℕ) → ℤ → Kernel → Result Kernel
el0_syscall_common img regs syscall_no s =
    invoke_syscall img regs syscall_no (note_syscall regs syscall_no s)

unfoldable pub el0_svc_handler : Image → (regs : ℕ) → Kernel → Result Kernel
el0_svc_handler img regs s = el0_syscall_common img regs (to_int ((s.frames regs).regs 8)) s
