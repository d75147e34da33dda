-- ===== src/Syscall/Keeps.antt =====
-- No system call breaks what the scheduler relies on.
use arm64os.Common.{
  ℕ, ◌+◌, ◌-◌, ◌^◌, ◌≡◌, ◌≢◌, ◌≤◌, ◌<◌, ◌⊎◌, inl, inr, arith, ◌∙◌, List, ◌∷◌, ◌++◌, [], length,
  ◌==◌, ==_iff, Bool-cases, Returns, ltb, ltb→lt, ltb→le,
}
use arm64os.Common.Int.{ℤ, pos}
use arm64os.PageAlloc.{PageAlloc, get_free_page}
use arm64os.Kernel.{Image, Kernel, PtRegs}
use arm64os.Fork.Balance.{IsRunnable, IsApart, IsNumbered, do_fork-IsNumbered}
use arm64os.Syscall.{
  nr_syscalls, to_u64, arm64_sys_malloc, arm64_sys_clone, set_result, note_syscall, el0_svc_handler,
}
use arm64os.Syscall.Dispatch.{number, el0_svc_handler-refused, refused}
use arm64os.Syscall.Results.{set_result_frame, handler_of_malloc, handler_of_clone}

pub IsRunnable-frame :
    (img : Image) (s : Kernel) (ts us : List ℕ) (f : ℕ → PtRegs) (g : PageAlloc)
    → IsRunnable img s ts us
    → IsRunnable img (record s { frames = f; pages = g }) ts us
IsRunnable-frame img s ts us f g inv = record {
  balanced = record { preemptible = inv.balanced.preemptible; waiting = inv.balanced.waiting };
  ready = record {
    queue = record { ring = inv.ready.queue.ring; counted = inv.ready.queue.counted };
    some_task = inv.ready.some_task;
    some_queued = inv.ready.some_queued;
    ring = inv.ready.ring;
    in_ring = inv.ready.in_ring;
    counters = inv.ready.counters;
    priorities = inv.ready.priorities;
  };
  linked = inv.linked;
  counter = inv.counter;
}

set_result-IsRunnable :
    (img : Image) (regs : ℕ) (ret : ℤ) (s : Kernel) (ts us : List ℕ)
    → IsRunnable img s ts us
    → IsRunnable img (set_result regs ret s) ts us
unfolding set_result
set_result-IsRunnable img regs ret s ts us inv =
    IsRunnable-frame img s ts us (set_result regs ret s).frames s.pages inv

set_result-IsNumbered :
    (regs : ℕ) (ret : ℤ) (s : Kernel) (p pid : ℕ) (t : Kernel)
    → IsNumbered s p pid t
    → IsNumbered s p pid (set_result regs ret t)
unfolding set_result
set_result-IsNumbered regs ret s p pid t h = record {
  number = h.number;
  first_slot = h.first_slot;
  slot = h.slot;
}

-- What `note_syscall` does is none of the numbers.
IsNumbered-noted :
    (regs : ℕ) (s : Kernel) (p pid : ℕ) (t : Kernel)
    → IsNumbered (note_syscall regs (pos 4) s) p pid t
    → IsNumbered s p pid t
unfolding note_syscall
IsNumbered-noted regs s p pid t h = record {
  number = h.number;
  first_slot = h.first_slot;
  slot = h.slot;
}

note_syscall-IsRunnable :
    (img : Image) (regs : ℕ) (nr : ℤ) (s : Kernel) (ts us : List ℕ)
    → IsRunnable img s ts us
    → IsRunnable img (note_syscall regs nr s) ts us
unfolding note_syscall
note_syscall-IsRunnable img regs nr s ts us inv =
    IsRunnable-frame img s ts us (note_syscall regs nr s).frames s.pages inv

malloc-IsRunnable :
    (img : Image) (s : Kernel) (ts us : List ℕ)
    → IsRunnable img s ts us
    → IsRunnable img (arm64_sys_malloc s).1 ts us
malloc-IsRunnable img s ts us inv =
    let after : (arm64_sys_malloc s).1
        ≡ record s { frames = s.frames; pages = (get_free_page s.pages).1 } =
      unfold arm64_sys_malloc in ground arith in
    rw after (IsRunnable-frame img s ts us s.frames (get_free_page s.pages).1 inv)

note_syscall-IsApart :
    (img : Image) (regs : ℕ) (s : Kernel) (ts us : List ℕ)
    → IsApart img s ts us (get_free_page s.pages).0
    → IsApart img
        (note_syscall regs (pos 4) s)
        ts
        us
        (get_free_page (note_syscall regs (pos 4) s).pages).0
unfolding note_syscall
note_syscall-IsApart img regs s ts us x = record {
  queued = x.queued;
  linked = x.linked;
  init_task = x.init_task;
  running = x.running;
  rq_head = x.rq_head;
}

module _ (img : Image) (regs : ℕ) (s : Kernel) (ts us : List ℕ) (inv : IsRunnable img s ts us)
    (apart : IsApart img s ts us (get_free_page s.pages).0) (small : length ts + 1 < 2 ^ 32) where
  -- The call `clone` returns, where the page that is free first lies apart from all tasks and the
  -- queue has room for one more below 2 ^ 32. In x0 it leaves the number of a new task in that page,
  -- that of the first empty slot of the table, which then holds the task; the task is first in the queue
  -- and last in the ring of tasks. Or it leaves -1, with the queue and the ring as they were. Either way
  -- the scheduler can run.
  pub el0_svc_handler-clone :
      number regs s ≡ 4
      → Returns (el0_svc_handler img regs s) (λ t.
        ((pid : ℕ) × ((t.frames regs).regs 0 ≡ pid)
          × IsNumbered s (get_free_page s.pages).0 pid t
          × IsRunnable img t
              ((get_free_page s.pages).0 ∷ ts)
              (us ++ (get_free_page s.pages).0 ∷ []))
        ⊎ (((t.frames regs).regs 0 ≡ 2 ^ 64 - 1) × IsRunnable img t ts us))
  unfolding arm64_sys_clone to_u64
  el0_svc_handler-clone h =
      let noted = note_syscall regs (pos 4) s in
      let a = noted.frames regs in
      let inv1 = note_syscall-IsRunnable img regs (pos 4) s ts us inv in
      let (r, runs, outcome) =
        do_fork-IsNumbered img (a.regs 0) (a.regs 1) (a.regs 2) noted ts us inv1
          (note_syscall-IsApart img regs s ts us apart) small in
      (
        set_result regs r.0 r.1,
        rw (handler_of_clone img regs s h, runs),
        elim outcome [
          | inl (pid, e, numbered, after) ↦ inl (
            pid,
            (set_result_frame regs r.0 r.1).0 ∙ (rw e (omega (arith, numbered.first_slot.below))),
            set_result-IsNumbered regs r.0 s _ pid r.1
                (unfold note_syscall in IsNumbered-noted regs s _ pid r.1 numbered),
            set_result-IsRunnable img regs r.0 r.1 _ _ (unfold note_syscall in after),
          )
          | inr (e, after) ↦ inr (
            (set_result_frame regs r.0 r.1).0 ∙ (rw e),
            set_result-IsRunnable img regs r.0 r.1 ts us after,
          )
        ],
      )

  -- The kernel after a call: with the tasks that it had, or with one more, in the page that was
  -- free first.
  abbrev pub RunnableAfter : Kernel → Type 0
  RunnableAfter t =
      IsRunnable img t ts us
      ⊎ IsRunnable img t ((get_free_page s.pages).0 ∷ ts) (us ++ (get_free_page s.pages).0 ∷ [])

  other-RunnableAfter :
      number regs s < 2 ^ 31
      → number regs s ≢ 4
      → Returns (el0_svc_handler img regs s) RunnableAfter
  other-RunnableAfter lt ne = elim (Bool-cases (number regs s == 5)) [
    | inl e ↦
        let h : number regs s ≡ 5 = (==_iff (number regs s) 5).0 e in
        let noted = note_syscall regs (pos 5) s in
        let r = arm64_sys_malloc noted in
        (
          set_result regs r.0 r.1,
          handler_of_malloc img regs s h,
          inl (
              set_result-IsRunnable img regs r.0 r.1 ts us (
                malloc-IsRunnable img noted ts us
                  (note_syscall-IsRunnable img regs (pos 5) s ts us inv))),
        )
    | inr n ↦
        let not_malloc : number regs s ≢ 5 = λ k. cc (n, (==_iff (number regs s) 5).1 k) in
        let which : (number regs s < 4)
            ⊎ ((nr_syscalls ≤ number regs s) × (number regs s < 2 ^ 31)) =
          elim (Bool-cases (ltb (number regs s) 4)) [
            | inl low ↦ inl (ltb→lt _ _ low)
            | inr high ↦ inr (omega (arith, ltb→le _ _ high), lt)
          ] in
        (
          refused regs s,
          el0_svc_handler-refused img regs s which,
          inl (IsRunnable-frame img s ts us (refused regs s).frames s.pages inv),
        )
  ]

  -- In a kernel in which the scheduler can run, in which the page that is free first lies apart from all
  -- tasks, and whose queue has room for one more below 2 ^ 32, a call whose number in x8 is below 2 ^ 31
  -- returns, whatever its arguments. The scheduler can run then as before, or with one task more in
  -- that page.
  pub el0_svc_handler-RunnableAfter :
      number regs s < 2 ^ 31 → Returns (el0_svc_handler img regs s) RunnableAfter
  el0_svc_handler-RunnableAfter lt = elim (Bool-cases (number regs s == 4)) [
    | inr n ↦ other-RunnableAfter lt (λ k. cc (n, (==_iff (number regs s) 4).1 k))
    | inl e ↦
        let (t, runs, outcome) = el0_svc_handler-clone ((==_iff (number regs s) 4).0 e) in
        (
          t,
          runs,
          elim outcome [ inl (pid, x, numbered, after) ↦ inr after | inr (x, after) ↦ inl after ],
        )
  ]
