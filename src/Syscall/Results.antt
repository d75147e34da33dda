-- ===== src/Syscall/Results.antt =====
-- What `malloc` and `clone` return, and that no call breaks what the scheduler relies on.
use arm64os.Common.{
  ℕ, ◌-◌, ◌^◌, ◌≡◌, refl, ◌≢◌, inl, inr, arith, ◌∙◌, if◌then◌else◌, ◌==◌, ==_iff, Bool-cases, ok,
  Returns, ◌>>=◌,
}
use arm64os.Common.Int.{ℤ, pos}
use arm64os.PageAlloc.{get_free_page}
use arm64os.PageAlloc.Alloc.{get_free_page_bounds}
use arm64os.Kernel.{Image, Kernel}
use arm64os.Syscall.{
  to_u64, sys_clone, sys_malloc, syscall_table, call, arm64_sys_malloc, arm64_sys_clone, set_result,
  note_syscall, el0_svc_handler,
}
use arm64os.Syscall.Dispatch.{number, handler_of_int, to_int_small, invoke_of_entry}

pub handler_of_malloc :
    (img : Image) (regs : ℕ) (s : Kernel)
    → number regs s ≡ 5
    → el0_svc_handler img regs s
      ≡ (let r = arm64_sys_malloc (note_syscall regs (pos 5) s) in ok (set_result regs r.0 r.1))
unfolding syscall_table call
handler_of_malloc img regs s h =
    let noted = note_syscall regs (pos 5) s in
    rw (
      handler_of_int img regs s,
      h,
      to_int_small 5 (omega arith),
      invoke_of_entry img regs 5 sys_malloc noted refl (omega arith),
    )

pub handler_of_clone :
    (img : Image) (regs : ℕ) (s : Kernel)
    → number regs s ≡ 4
    → el0_svc_handler img regs s ≡ (
        arm64_sys_clone img regs (note_syscall regs (pos 4) s) >>= λ (r : ℤ × Kernel).
        ok (set_result regs r.0 r.1))
unfolding syscall_table call
handler_of_clone img regs s h =
    let noted = note_syscall regs (pos 4) s in
    rw (
      handler_of_int img regs s,
      h,
      to_int_small 4 (omega arith),
      invoke_of_entry img regs 4 sys_clone noted refl (omega arith),
    )

pub set_result_frame :
    (regs : ℕ) (ret : ℤ) (s : Kernel)
    → (((set_result regs ret s).frames regs).regs 0 ≡ to_u64 ret)
      × ((j : ℕ) → j ≢ 0 → ((set_result regs ret s).frames regs).regs j ≡ (s.frames regs).regs j)
unfolding set_result
set_result_frame regs ret s = (ground arith, λ j ne. ground arith)

malloc_registers :
    (regs : ℕ) (s : Kernel) (j : ℕ)
    → ((arm64_sys_malloc (note_syscall regs (pos 5) s)).1.frames regs).regs j
      ≡ (s.frames regs).regs j
unfolding arm64_sys_malloc note_syscall
malloc_registers regs s j = ground arith

malloc_result :
    (s : Kernel)
    → to_u64 (arm64_sys_malloc s).0
      ≡ (if (get_free_page s.pages).0 == 0 then 2 ^ 64 - 1 else (get_free_page s.pages).0)
unfolding arm64_sys_malloc to_u64
malloc_result s = elim (Bool-cases ((get_free_page s.pages).0 == 0)) [
  | inl e ↦ rw e
  | inr n ↦
      let ne : (get_free_page s.pages).0 ≢ 0 =
        λ e. cc (n, (==_iff (get_free_page s.pages).0 0).1 e) in
      rw n (omega (arith, (get_free_page_bounds s.pages ne).2))
]

-- The call `malloc` never faults: x0 is the address of the page that `get_free_page` takes, or -1
-- where none is left. No other register changes.
pub el0_svc_handler-malloc :
    (img : Image) (regs : ℕ) (s : Kernel)
    → number regs s ≡ 5
    → Returns (el0_svc_handler img regs s) (λ t.
      ((t.frames regs).regs 0
        ≡ (if (get_free_page s.pages).0 == 0 then 2 ^ 64 - 1 else (get_free_page s.pages).0))
      × ((j : ℕ) → j ≢ 0 → (t.frames regs).regs j ≡ (s.frames regs).regs j)
      × (t ≡ record s { frames = t.frames; pages = (get_free_page s.pages).1 }))
el0_svc_handler-malloc img regs s h =
    let noted = note_syscall regs (pos 5) s in
    let r = arm64_sys_malloc noted in
    let same : noted.pages ≡ s.pages = unfold note_syscall in refl in
    let tail : set_result regs r.0 r.1 ≡ record s {
      frames = (set_result regs r.0 r.1).frames;
      pages = (get_free_page s.pages).1;
    } =
      unfold set_result arm64_sys_malloc note_syscall in ground arith in
    (
      set_result regs r.0 r.1,
      handler_of_malloc img regs s h,
      (
        (set_result_frame regs r.0 r.1).0 ∙ malloc_result noted ∙ rw same,
        λ j ne. (set_result_frame regs r.0 r.1).1 j ne ∙ malloc_registers regs s j,
        tail,
      ),
    )
