-- ===== src/System/Calls.antt =====
-- A system call keeps what holds between the steps.
use arm64os.Common.{
  ℕ, ◌+◌, ◌^◌, ◌<◌, ◌≤◌, ◌≡◌, ◌≢◌, ◌⊎◌, inl, inr, List, arith, sym, ◌∙◌, Bool-cases, ==_iff, ◌==◌,
  ltb, ltb→lt, ltb→le, ok,
}
use arm64os.Common.Int.{ℤ, pos}
use arm64os.PageAlloc.{PageAlloc, get_free_page}
use arm64os.Kernel.{Image, Kernel, PtRegs}
use arm64os.Fork.Create.{do_fork_cases}
use arm64os.Syscall.{
  nr_syscalls, arm64_sys_malloc, arm64_sys_clone, set_result, note_syscall, el0_svc_handler,
}
use arm64os.Syscall.Dispatch.{number, refused, el0_svc_handler-refused}
use arm64os.Syscall.Results.{handler_of_malloc, handler_of_clone}
use arm64os.Syscall.Keeps.{IsRunnable-frame}
use arm64os.System.Spare.{IsPlaced, Owned, IsSystem, spare-IsApart}
use arm64os.System.Ticks.{ok-injective}
use arm64os.System.Forks.{Owned-used, fork-IsSystem}

module _ (img : Image) (s : Kernel) (ts us : List ℕ) (inv : IsSystem img s ts us) where
  pages-IsSystem :
      (f : ℕ → PtRegs) (g : PageAlloc)
      → ((q : ℕ) → Owned s.pages q → Owned g q)
      → IsSystem img (record s { frames = f; pages = g }) ts us
  pages-IsSystem f g keeps = record {
    runnable = IsRunnable-frame img s ts us f g inv.runnable;
    owned = λ q h. keeps q (inv.owned q h);
    is_current = inv.is_current;
    current_running = inv.current_running;
    running = inv.running;
    forks = inv.forks;
  }

  set_result-IsSystem : (regs : ℕ) (ret : ℤ) → IsSystem img (set_result regs ret s) ts us
  unfolding set_result
  set_result-IsSystem regs ret = pages-IsSystem (set_result regs ret s).frames s.pages (λ q o. o)

  note_syscall-IsSystem : (regs : ℕ) (nr : ℤ) → IsSystem img (note_syscall regs nr s) ts us
  unfolding note_syscall
  note_syscall-IsSystem regs nr = pages-IsSystem (note_syscall regs nr s).frames s.pages (λ q o. o)

  malloc-IsSystem : IsSystem img (arm64_sys_malloc s).1 ts us
  malloc-IsSystem =
      let after : (arm64_sys_malloc s).1
          ≡ record s { frames = s.frames; pages = (get_free_page s.pages).1 } =
        unfold arm64_sys_malloc in ground arith in
      rw after (pages-IsSystem s.frames (get_free_page s.pages).1 (Owned-used s.pages))

module _ (img : Image) (regs : ℕ) (s t : Kernel) (ts us : List ℕ) (placed : IsPlaced img)
    (inv : IsSystem img s ts us) (ran : el0_svc_handler img regs s ≡ ok t) where
  abbrev After : Type 0
  After = (ts' : List ℕ) × (us' : List ℕ) × IsSystem img t ts' us'

  clone-After : number regs s ≡ 4 → s.nr_running + 1 < 2 ^ 32 → s.total_forks + 1 < 2 ^ 64 → After
  unfolding arm64_sys_clone note_syscall
  clone-After h small few =
      let noted = note_syscall regs (pos 4) s in
      let a = noted.frames regs in
      let inv1 = note_syscall-IsSystem img s ts us inv regs (pos 4) in
      let apart = spare-IsApart img noted ts us placed inv1 in
      let (r, runs, outcome) =
        do_fork_cases img (a.regs 0) (a.regs 1) (a.regs 2) noted apart.running in
      let (ts', us', made) =
        fork-IsSystem img noted ts us placed inv1 (a.regs 0) (a.regs 1) (a.regs 2) r.1 r.0 small few
          runs in
      let whole : el0_svc_handler img regs s ≡ ok (set_result regs r.0 r.1) =
        handler_of_clone img regs s h ∙ (rw runs) in
      let same : set_result regs r.0 r.1 ≡ t = ok-injective (sym whole ∙ ran) in
      (ts', us', rw same at (set_result-IsSystem img r.1 ts' us' made regs r.0))

  malloc-After : number regs s ≡ 5 → After
  malloc-After h =
      let noted = note_syscall regs (pos 5) s in
      let r = arm64_sys_malloc noted in
      let same : set_result regs r.0 r.1 ≡ t =
        ok-injective (sym (handler_of_malloc img regs s h) ∙ ran) in
      let inv1 = note_syscall-IsSystem img s ts us inv regs (pos 5) in
      let inv2 = malloc-IsSystem img noted ts us inv1 in
      (ts, us, rw same at (set_result-IsSystem img r.1 ts us inv2 regs r.0))

  refused-After :
      (number regs s < 4) ⊎ ((nr_syscalls ≤ number regs s) × (number regs s < 2 ^ 31)) → After
  refused-After which =
      let same : refused regs s ≡ t =
        ok-injective (sym (el0_svc_handler-refused img regs s which) ∙ ran) in
      (
        ts,
        us,
        rw same at (pages-IsSystem img s ts us inv (refused regs s).frames s.pages (λ q o. o)),
      )

  pub call-IsSystem :
      number regs s < 2 ^ 31 → s.nr_running + 1 < 2 ^ 32 → s.total_forks + 1 < 2 ^ 64 → After
  call-IsSystem low small few = elim (Bool-cases (number regs s == 4)) [
    | inl e ↦ clone-After ((==_iff (number regs s) 4).0 e) small few
    | inr n ↦ elim (Bool-cases (number regs s == 5)) [
      | inl e ↦ malloc-After ((==_iff (number regs s) 5).0 e)
      | inr m ↦
          let not_clone : number regs s ≢ 4 = λ k. cc (n, (==_iff (number regs s) 4).1 k) in
          let not_malloc : number regs s ≢ 5 = λ k. cc (m, (==_iff (number regs s) 5).1 k) in
          refused-After (elim (Bool-cases (ltb (number regs s) 4)) [
            | inl small ↦ inl (ltb→lt _ _ small)
            | inr high ↦ inr (omega (arith, ltb→le _ _ high), low)
          ])
    ]
  ]
