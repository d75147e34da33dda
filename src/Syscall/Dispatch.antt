-- ===== src/Syscall/Dispatch.antt =====
-- Which handler a system call reaches, and what becomes of the frame.
use arm64os.Common.{
  ℕ, zero, suc, ◌-◌, ◌%◌, ◌^◌, ◌≡◌, refl, fun_ext, true, false, ◌≤◌, ◌<◌, ◌⊎◌, inl, inr, arith, ap,
  update, some, ok, fault, ◌>>=◌,
}
use arm64os.Common.Int.{ℤ, pos, negsuc, ltb_ℤ, to_int}
use arm64os.Kernel.{Image, Kernel, PtRegs}
use arm64os.Fork.{set_frame}
use arm64os.Syscall.{
  to_u32, to_u64, SyscallFn, sys_open, sys_close, sys_read, sys_write, nr_syscalls, syscall_table,
  sys_ni_syscall, call, table_entry, set_result, invoke_syscall, note_syscall, el0_syscall_common,
  el0_svc_handler,
}

-- The number of a call, as the register x8 holds it.
abbrev pub number : (regs : ℕ) → Kernel → ℕ
number regs s = (s.frames regs).regs 8

pub handler_of_int :
    (img : Image) (regs : ℕ) (s : Kernel)
    → el0_svc_handler img regs s
      ≡ invoke_syscall img regs
          (to_int (number regs s))
          (note_syscall regs (to_int (number regs s)) s)
unfolding el0_svc_handler el0_syscall_common
handler_of_int img regs s = refl

pub to_int_small : (n : ℕ) → n < 2 ^ 31 → to_int n ≡ pos n
unfolding to_int
to_int_small n h = ground arith

pub to_int_negative : (n : ℕ) → 2 ^ 31 ≤ n % 2 ^ 32 → to_int n ≡ negsuc (2 ^ 32 - 1 - n % 2 ^ 32)
unfolding to_int
to_int_negative n h = ground arith

entry_of_table : (n : ℕ) (fn : SyscallFn) → syscall_table n ≡ some fn → table_entry (pos n) ≡ ok fn
unfolding table_entry
entry_of_table n fn e = rw (e, table_entry)

-- A call of an entry of the table.
pub invoke_of_entry :
    (img : Image) (regs n : ℕ) (fn : SyscallFn) (s : Kernel)
    → syscall_table n ≡ some fn
    → n < nr_syscalls
    → invoke_syscall img regs (pos n) s
      ≡ (call img fn regs s >>= λ (r : ℤ × Kernel). ok (set_result regs r.0 r.1))
invoke_of_entry img regs n fn s e h =
    let low : ltb_ℤ (pos n) (pos nr_syscalls) ≡ true = ground arith in
    let entry : table_entry (pos n) ≡ ok fn = entry_of_table n fn e in
    unfold invoke_syscall in rw (low, entry)

invoke_unknown :
    (img : Image) (regs n : ℕ) (s : Kernel)
    → nr_syscalls ≤ n
    → invoke_syscall img regs (pos n) s ≡ ok (set_result regs (negsuc 0) s)
invoke_unknown img regs n s h =
    let high : ltb_ℤ (pos n) (pos nr_syscalls) ≡ false = ground arith in
    unfold invoke_syscall sys_ni_syscall in rw high

-- The frame after a call that does nothing but return -1.
abbrev pub refused : (regs : ℕ) → Kernel → Kernel
refused regs s =
    let r = s.frames regs in
    set_frame regs
      (record r {
        regs = update r.regs 0 (2 ^ 64 - 1);
        orig_x0 = r.regs 0;
        syscallno = number regs s;
      })
      s

refused_frame :
    (regs : ℕ) (s : Kernel)
    → number regs s < 2 ^ 31
    → set_result regs (negsuc 0) (note_syscall regs (pos (number regs s)) s) ≡ refused regs s
unfolding set_result note_syscall to_u64 to_u32
refused_frame regs s h =
    ap (λ (f : ℕ → PtRegs). record s { frames = f }) (fun_ext (λ a. ground arith))

-- Whether a number is one of the first four, whose calls are not implemented, or one that the table ends
-- before and that is no negative `int`.
abbrev pub Unimplemented : ℕ → Type 0
Unimplemented n = (n < 4) ⊎ ((nr_syscalls ≤ n) × (n < 2 ^ 31))

first_four :
    (img : Image) (regs n : ℕ) (s : Kernel)
    → n < 4
    → invoke_syscall img regs (pos n) s ≡ ok (set_result regs (negsuc 0) s)
unfolding syscall_table call
first_four img regs zero s h = invoke_of_entry img regs 0 sys_open s refl (omega arith)
first_four img regs (suc zero) s h = invoke_of_entry img regs 1 sys_close s refl (omega arith)
first_four img regs (suc (suc zero)) s h = invoke_of_entry img regs 2 sys_read s refl (omega arith)
first_four img regs (suc (suc (suc zero))) s h =
    invoke_of_entry img regs 3 sys_write s refl (omega arith)
first_four img regs (suc (suc (suc (suc n)))) s h = absurd (omega arith)

-- A call whose number in x8 is one of the first four, which are not implemented, or lies behind the table
-- and below 2 ^ 31, returns -1 in x0. The frame notes its number, and the old x0; the rest of the frame
-- is as it was, and so is all else.
pub el0_svc_handler-refused :
    (img : Image) (regs : ℕ) (s : Kernel)
    → Unimplemented (number regs s)
    → el0_svc_handler img regs s ≡ ok (refused regs s)
el0_svc_handler-refused img regs s which =
    let small : number regs s < 2 ^ 31 = elim which [ inl h ↦ omega arith | inr h ↦ h.1 ] in
    let noted = note_syscall regs (pos (number regs s)) s in
    let runs : invoke_syscall img regs (pos (number regs s)) noted
        ≡ ok (set_result regs (negsuc 0) noted) =
      elim which [
        | inl h ↦ first_four img regs (number regs s) noted h
        | inr h ↦ invoke_unknown img regs (number regs s) noted h.0
      ] in
    rw (
      handler_of_int img regs s,
      to_int_small (number regs s) small,
      runs,
      refused_frame regs s small,
    )

-- A number whose lower 32 bits stand for a negative `int` passes the check of `invoke_syscall`, and
-- the call is read from memory ahead of the table, a fault.
pub el0_svc_handler-negative :
    (img : Image) (regs : ℕ) (s : Kernel)
    → 2 ^ 31 ≤ number regs s % 2 ^ 32
    → el0_svc_handler img regs s ≡ fault
el0_svc_handler-negative img regs s h =
    let k = 2 ^ 32 - 1 - number regs s % 2 ^ 32 in
    let low : ltb_ℤ (negsuc k) (pos nr_syscalls) ≡ true = ground arith in
    let stops : (t : Kernel) → invoke_syscall img regs (negsuc k) t ≡ fault =
      λ t. unfold invoke_syscall table_entry in rw low in
    rw (
      handler_of_int img regs s,
      to_int_negative (number regs s) h,
      stops (note_syscall regs (negsuc k) s),
    )
