-- ===== src/System/Spare.antt =====
-- The next free page lies apart from all tasks.
use arm64os.Common.{
  ℕ, ◌<◌, ◌≡◌, ◌≢◌, ◌⊎◌, inl, inr, true, List, arith, ap, sym, ◌∙◌, length, Bool-cases,
}
use arm64os.PageAlloc.{PageAlloc, nr_pages, page_address, get_free_page}
use arm64os.PageAlloc.Alloc.{get_free_page_cases}
use arm64os.ListHead.Ring.{has}
use arm64os.Kernel.{Image, Kernel, task_running, current, run_list}
use arm64os.Fork.Balance.{IsRunnable, IsApart}

-- The objects of the image lie outside of the pages that can be allocated.
pub record IsPlaced (img : Image) : Type 0 where
  pub apart : img.ret_from_fork ≢ img.switch_return
  pub init_set : img.init_task ≢ 0
  pub init_out : (j : ℕ) → j < nr_pages → page_address j ≢ img.init_task
  pub head_set : run_list 0 ≢ img.rq_head
  pub head_out : (j : ℕ) → j < nr_pages → run_list (page_address j) ≢ img.rq_head

-- `q` is a page that is used.
abbrev pub Owned : PageAlloc → ℕ → Type 0
Owned g q = (j : ℕ) × (j < nr_pages) × (q ≡ page_address j) × (g.mem_map j ≢ 0)

-- What holds between the steps of the kernel, of which `ts` are queued and `us` are all tasks.
pub record IsSystem (img : Image) (s : Kernel) (ts us : List ℕ) : Type 0 where
  pub runnable : IsRunnable img s ts us
  pub owned : (q : ℕ) → has q us ≡ true → Owned s.pages q
  pub is_current : (current s ≡ img.init_task) ⊎ (has (current s) us ≡ true)
  pub current_running : (s.tasks (current s)).state ≡ task_running
  pub running : (q : ℕ) → has q ts ≡ true → (s.tasks q).state ≡ task_running
  pub forks : s.total_forks ≡ length us

-- The page that `get_free_page` would return: a free one, or 0.
spare-cases :
    (g : PageAlloc)
    → ((get_free_page g).0 ≡ 0)
      ⊎ ((i : ℕ) × (i < nr_pages) × ((get_free_page g).0 ≡ page_address i) × (g.mem_map i ≡ 0))
spare-cases g = elim (get_free_page_cases g) [
  | inl (i, a) ↦
      inr (i, a.is_first.below, ap (λ (r : ℕ × PageAlloc). r.0) a.returns, a.is_first.free)
  | inr (used, e) ↦ inl (ap (λ (r : ℕ × PageAlloc). r.0) e)
]

spare-Owned : (g : PageAlloc) → Owned g (get_free_page g).0 → ⊥
spare-Owned g (j, h, e, used) = elim (spare-cases g) [
  | inl z ↦ absurd (omega (arith, z, e))
  | inr (i, k, f, free) ↦ let same : i ≡ j = omega (arith, e, f) in used (rw same at free)
]

pub spare-IsApart :
    (img : Image) (s : Kernel) (ts us : List ℕ)
    → IsPlaced img
    → IsSystem img s ts us
    → IsApart img s ts us (get_free_page s.pages).0
spare-IsApart img s ts us placed inv =
    let p = (get_free_page s.pages).0 in
    let linked : has p us ≡ true → ⊥ = λ h. spare-Owned s.pages (inv.owned p h) in
    let no_init : p ≢ img.init_task = λ e. elim (spare-cases s.pages) [
      | inl z ↦ placed.init_set (sym e ∙ z)
      | inr (i, k, f, free) ↦ placed.init_out i k (sym f ∙ e)
    ] in
    record {
      queued = elim (Bool-cases (has p ts)) [
        | inl h ↦ absurd (linked (inv.runnable.ready.in_ring p h))
        | inr h ↦ h
      ];
      linked = elim (Bool-cases (has p us)) [ inl h ↦ absurd (linked h) | inr h ↦ h ];
      init_task = no_init;
      running = λ e. elim inv.is_current [
        | inl is_init ↦ no_init (e ∙ is_init)
        | inr h ↦ linked (rw e h)
      ];
      rq_head = λ e. elim (spare-cases s.pages) [
        | inl z ↦ placed.head_set (rw z at e)
        | inr (i, k, f, free) ↦ placed.head_out i k (rw f at e)
      ];
    }
