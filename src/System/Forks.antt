-- ===== src/System/Forks.antt =====
-- The making of a thread keeps what holds between the steps.
use arm64os.Common.{
  ℕ, ◌+◌, ◌^◌, ◌<◌, ◌≡◌, ◌≢◌, inl, inr, true, List, [], ◌∷◌, ◌++◌, arith, ap, sym, ◌∙◌,
  length-append, Bool-cases, ==_iff, ◌==◌, ok,
}
use arm64os.Common.Int.{ℤ}
use arm64os.PageAlloc.{PageAlloc, get_free_page}
use arm64os.PageAlloc.Alloc.{get_free_page_cases, get_free_page_bounds}
use arm64os.ListHead.Ring.{has}
use arm64os.ListHead.Laws.{has-append}
use arm64os.Kernel.{Image, Kernel, current}
use arm64os.Fork.{do_fork}
use arm64os.Fork.Create.{Forked, Unforked, do_fork_cases}
use arm64os.Fork.Balance.{apart-in, Unforked-IsRunnable, Forked-IsRunnable}
use arm64os.System.Spare.{IsPlaced, Owned, IsSystem, spare-IsApart}
use arm64os.System.Ticks.{ok-injective}

pub Owned-used : (g : PageAlloc) (q : ℕ) → Owned g q → Owned (get_free_page g).1 q
Owned-used g q (j, h, e, used) = elim (get_free_page_cases g) [
  | inl (i, a) ↦ (j, h, e, rw a.returns (ground (arith, used)))
  | inr (all, r) ↦ (j, h, e, rw r used)
]

new-Owned :
    (g : PageAlloc) → (get_free_page g).0 ≢ 0 → Owned (get_free_page g).1 (get_free_page g).0
new-Owned g ne = elim (get_free_page_cases g) [
  | inl (i, a) ↦ (i, a.is_first.below, rw a.returns, rw a.returns (ground arith))
  | inr (all, r) ↦ absurd (ne (ap (λ (x : ℕ × PageAlloc). x.0) r))
]

module _ (img : Image) (s : Kernel) (ts us : List ℕ) (placed : IsPlaced img)
    (inv : IsSystem img s ts us) where
  abbrev spare : ℕ
  spare = (get_free_page s.pages).0

  Unforked-IsSystem : (t : Kernel) → Unforked s spare t → IsSystem img t ts us
  Unforked-IsSystem t un =
      let apart = spare-IsApart img s ts us placed inv in
      let cpu_same : t.cpu ≡ s.cpu = ap (λ (k : Kernel). k.cpu) un.rest in
      record {
        runnable = Unforked-IsRunnable img s ts us spare inv.runnable apart t un;
        owned = λ q h. let (j, lt, e, used) = inv.owned q h in (j, lt, e, rw (un.pages j) used);
        is_current = rw cpu_same inv.is_current;
        current_running =
            rw (cpu_same, un.others (current s) (λ e. apart.running (sym e))) inv.current_running;
        running = λ q h. rw (un.others q (apart-in spare q ts apart.queued h)) (inv.running q h);
        forks = ap (λ (k : Kernel). k.total_forks) un.rest ∙ inv.forks;
      }

  Forked-IsSystem :
      (pid : ℕ) (t : Kernel)
      → spare ≢ 0
      → Forked img s spare pid t
      → s.nr_running + 1 < 2 ^ 32
      → s.total_forks + 1 < 2 ^ 64
      → IsSystem img t (spare ∷ ts) (us ++ spare ∷ [])
  Forked-IsSystem pid t ne f small few =
      let apart = spare-IsApart img s ts us placed inv in
      let cpu_same : t.cpu ≡ s.cpu = ap (λ (k : Kernel). k.cpu) f.rest in
      let pages_are : t.pages ≡ (get_free_page s.pages).1 = ap (λ (k : Kernel). k.pages) f.rest in
      record {
        runnable =
            Forked-IsRunnable img s ts us spare inv.runnable apart pid t f
              (get_free_page_bounds s.pages ne).1
              (omega (arith, inv.runnable.ready.queue.counted, small));
        owned = λ q h. elim (Bool-cases (q == spare)) [
          | inl e ↦ rw (pages_are, (==_iff q spare).0 e) (new-Owned s.pages ne)
          | inr other ↦
              let old : has q us ≡ true = ground (arith, has-append q spare us) in
              rw pages_are (Owned-used s.pages q (inv.owned q old))
        ];
        is_current = elim inv.is_current [
          | inl e ↦ inl (rw cpu_same e)
          | inr h ↦ inr (rw (cpu_same, has-append (current s) spare us, h))
        ];
        current_running =
            rw (cpu_same, f.others (current s) (λ e. apart.running (sym e))) inv.current_running;
        running = λ q h. elim (Bool-cases (q == spare)) [
          | inl e ↦ rw ((==_iff q spare).0 e) f.started
          | inr other ↦
              let old : has q ts ≡ true = ground arith in
              rw (f.others q (apart-in spare q ts apart.queued old)) (inv.running q old)
        ];
        forks = omega (
          arith,
          ap (λ (k : Kernel). k.total_forks) f.rest,
          inv.forks,
          length-append us (spare ∷ []),
        );
      }

  pub fork-IsSystem :
      (clone_flags stack arg : ℕ) (t : Kernel) (pid : ℤ)
      → s.nr_running + 1 < 2 ^ 32
      → s.total_forks + 1 < 2 ^ 64
      → do_fork img clone_flags stack arg s ≡ ok (pid, t)
      → (ts' : List ℕ) × (us' : List ℕ) × IsSystem img t ts' us'
  fork-IsSystem clone_flags stack arg t pid small few ran =
      let apart = spare-IsApart img s ts us placed inv in
      let (r, runs, outcome) = do_fork_cases img clone_flags stack arg s apart.running in
      let same : r.1 ≡ t = ap (λ (x : ℤ × Kernel). x.1) (ok-injective (sym runs ∙ ran)) in
      elim outcome [
        | inl (n, e, ne, f) ↦
            (spare ∷ ts, us ++ spare ∷ [], rw same at (Forked-IsSystem n r.1 ne f small few))
        | inr (why, e, un) ↦ (ts, us, rw same at (Unforked-IsSystem r.1 un))
      ]
