-- ===== src/Irq/Init.antt =====
-- The initialisation of the interrupt controller.
use arm64os.Common.{
  ℕ, zero, suc, ◌+◌, ◌-◌, ◌%◌, ◌^◌, ◌≤◌, ◌<◌, ◌≡◌, refl, ◌≢◌, arith, ap, ◌∙◌, sym, Bool, true,
  false, ltb, ◌==◌, if◌then◌else◌, update, Option, none, some, List, fault, Returns, Returns-bind,
  ltb→lt, Bool-cases, Option-cases, inl, inr,
}
use arm64os.Common.Int.{pos}
use arm64os.PageAlloc.{get_free_page}
use arm64os.Irq.{
  nr_irqs, IrqDesc, IrqDomain, IrqState, ArchHandler, gic_handle_irq, gicv2_irq_map, for_loop,
}
use arm64os.Irq.Core.{irq_alloc_descs, map_irqs, irq_domain_add, set_handle_irq}
use arm64os.Irq.Gic.{hw_irq_start, gic_dist_init, gic_cpu_init, count_irqs, gic_init}
use arm64os.Irq.Descs.{
  within, counted, mapped, Changed, irq_alloc_descs-Changed, irq_alloc_descs-beyond,
  map_irqs-Changed,
}

-- Device registers are written, and nothing else changes.
abbrev pub OnlyWrites : IrqState → IrqState → Type 0
OnlyWrites s t = t ≡ record s { writes = t.writes }

loop-more :
    (fuel i stop step : ℕ) (body : ℕ → IrqState → IrqState) (s : IrqState)
    → ltb i stop ≡ true
    → for_loop (suc fuel) i stop step body s ≡ for_loop fuel (i + step) stop step body (body i s)
unfolding for_loop
loop-more fuel i stop step body s more = rw more

for_loop-OnlyWrites :
    (fuel i stop step : ℕ) (body : ℕ → IrqState → IrqState) (s : IrqState)
    → ((i : ℕ) (s : IrqState) → OnlyWrites s (body i s))
    → 0 < step
    → 0 < fuel
    → stop < i + fuel
    → Returns (for_loop fuel i stop step body s) (OnlyWrites s)
for_loop-OnlyWrites zero i stop step body s only forward some_fuel enough = absurd (omega arith)
for_loop-OnlyWrites (suc fuel) i stop step body s only forward some_fuel enough =
    elim (Bool-cases (ltb i stop)) [
      | inr end ↦ (s, unfold for_loop in rw end, refl)
      | inl more ↦
          let lt : i < stop = ltb→lt i stop more in
          let (t, runs, w) =
            for_loop-OnlyWrites fuel (i + step) stop step body (body i s) only forward (omega arith)
              (omega arith) in
          (
            t,
            loop-more fuel i stop step body s more ∙ runs,
            w ∙ ap (λ (u : IrqState). record u { writes = t.writes }) (only i s),
          )
    ]

-- The rest of a chain may assume the last writes alone to differ.
more-writes :
    (s t : IrqState) (w : List (ℕ × ℕ)) → OnlyWrites s t → OnlyWrites s (record t { writes = w })
more-writes s t w h = ap (λ (u : IrqState). record u { writes = w }) h

OnlyWrites-trans : (s t u : IrqState) → OnlyWrites s t → OnlyWrites t u → OnlyWrites s u
OnlyWrites-trans s t u h k = k ∙ more-writes s t u.writes h

module _ (readl : ℕ → ℕ) where
  -- The loops of `gic_dist_init` end, given one round more than there are interrupts, and the
  -- function writes device registers alone.
  pub gic_dist_init-ends :
      (fuel : ℕ) (s : IrqState)
      → s.gic_data.gic_irqs < fuel
      → Returns (gic_dist_init readl fuel s) (OnlyWrites s)
  unfolding gic_dist_init
  gic_dist_init-ends fuel s enough =
      Returns-bind
        (for_loop-OnlyWrites fuel 32 s.gic_data.gic_irqs 4 _ _ (λ i t. refl) (omega arith)
          (omega arith) (omega arith))
        (λ s2 w2.
          Returns-bind
            (for_loop-OnlyWrites fuel 32 s.gic_data.gic_irqs 16 _ s2 (λ i t. refl) (omega arith)
              (omega arith) (omega arith))
            (λ s3 w3.
              Returns-bind
                (for_loop-OnlyWrites fuel 0 s.gic_data.gic_irqs 32 _ s3 (λ i t. refl) (omega arith)
                  (omega arith) (omega arith))
                (λ s4 w4. (
                  _,
                  refl,
                  more-writes s s4 _ (OnlyWrites-trans s s3 s4 (OnlyWrites-trans s s2 s3 w2 w3) w4),
                ))))

  pub gic_cpu_init-ends :
      (fuel : ℕ) (s : IrqState) → 32 < fuel → Returns (gic_cpu_init readl fuel s) (OnlyWrites s)
  unfolding gic_cpu_init
  gic_cpu_init-ends fuel s enough =
      Returns-bind
        (for_loop-OnlyWrites fuel 0 32 4 _ s (λ i t. refl) (omega arith) (omega arith)
          (omega arith))
        (λ s1 w. (_, refl, more-writes s s1 _ w))

-- The state with the new domain, in the page `page`, before its interrupts are mapped.
abbrev added : (page count gic : ℕ) → IrqState → IrqState
added page count gic s = record s {
  kernel = record (s.kernel) { pages = (get_free_page s.kernel.pages).1 };
  domains =
      update s.domains page
        (record { map = some gicv2_irq_map; hwirq_max = (16 + count) % 2 ^ 32; host_data = gic });
}

irq_domain_add-Changed :
    (count gic : ℕ) (s : IrqState)
    → (get_free_page s.kernel.pages).0 ≢ 0
    → 16 + count ≤ nr_irqs
    → let page = (get_free_page s.kernel.pages).0 in
      Returns
        (irq_domain_add 16 16 count (some gicv2_irq_map) gic s)
        (λ r. (r.0 ≡ page) × Changed 16 count (mapped page gic) (added page count gic s) r.1)
unfolding irq_domain_add
irq_domain_add-Changed count gic s ne small =
    let page = (get_free_page s.kernel.pages).0 in
    let u = added page count gic s in
    let host : (u.domains page).host_data ≡ gic = ground arith in
    let here : (u.domains page).map ≡ some gicv2_irq_map = ground arith in
    let ends : Returns (map_irqs page 16 16 count u) (Changed 16 count (mapped page gic) u) =
      rw host at (map_irqs-Changed page 16 count u (omega arith) small here) in
    let (t, runs, c) = ends in
    let some_page : (page == 0) ≡ false = ground arith in
    ((page, t), rw (some_page, runs), (refl, c))

-- What `gic_init` sets up: the domain in `page`, and the descriptors of `n` interrupts.
pub record IsInitialised (gic dist_base cpu_base n : ℕ) (s t : IrqState) : Type 0 where
  pub descs :
      (q : ℕ)
      → t.irq_desc q ≡ (
          if within 16 (n - 16) q
          then mapped (get_free_page s.kernel.pages).0 gic q (counted (s.irq_desc q))
          else s.irq_desc q)
  pub gic_data : t.gic_data ≡ record {
    raw_dist_base = dist_base;
    raw_cpu_base = cpu_base;
    domain = (get_free_page s.kernel.pages).0;
    gic_irqs = n;
  }
  pub handler :
      t.arch_irq_handler ≡ elim s.arch_irq_handler [ none ↦ some gic_handle_irq | some h ↦ some h ]
  pub kernel : t.kernel ≡ record (s.kernel) { pages = (get_free_page s.kernel.pages).1 }

both :
    (b : Bool) (f : IrqDesc → IrqDesc) (x y z : IrqDesc)
    → y ≡ (if b then counted z else z)
    → x ≡ (if b then f y else y)
    → x ≡ (if b then f (counted z) else z)
both true f x y z p q = q ∙ ap f p
both false f x y z p q = q ∙ p

set_handle_irq_lem :
    (u : IrqState)
    → set_handle_irq gic_handle_irq u ≡ record u {
      arch_irq_handler = elim u.arch_irq_handler [ none ↦ some gic_handle_irq | some h ↦ some h ];
    }
set_handle_irq_lem u = elim (Option-cases u.arch_irq_handler) [
  | inl e ↦ unfold set_handle_irq in rw e
  | inr (h, e) ↦ unfold set_handle_irq in (rw e)
]

module _ (readl : ℕ → ℕ) (fuel gic dist_base cpu_base : ℕ) (s : IrqState) where
  abbrev based : IrqState
  based = record s {
    gic_data = record (s.gic_data) {
      raw_dist_base = dist_base;
      raw_cpu_base = cpu_base;
      gic_irqs = count_irqs readl dist_base;
    };
  }

  abbrev joined : ℕ × IrqState → IrqState
  joined d = record (d.1) {
    gic_data = record (d.1.gic_data) { domain = (get_free_page s.kernel.pages).0 };
  }

  -- The state after the domain was added.
  record Mapped (t : IrqState) : Type 0 where
    descs :
        (q : ℕ)
        → t.irq_desc q ≡ (
            if within 16 (count_irqs readl dist_base - 16) q
            then mapped (get_free_page s.kernel.pages).0 gic q (counted (s.irq_desc q))
            else s.irq_desc q)
    rest : t ≡ record based {
      irq_desc = t.irq_desc;
      domains = t.domains;
      kernel = record (s.kernel) { pages = (get_free_page s.kernel.pages).1 };
    }

  add_after :
      (a : ℕ × IrqState)
      → a.0 ≡ 16
      → Changed 16 (count_irqs readl dist_base - 16) (λ _. counted) based a.1
      → (get_free_page s.kernel.pages).0 ≢ 0
      → 16 + (count_irqs readl dist_base - 16) ≤ nr_irqs
      → Returns
          (irq_domain_add a.0 16 (count_irqs readl dist_base - 16) (some gicv2_irq_map) gic a.1)
          (λ r. (r.0 ≡ (get_free_page s.kernel.pages).0) × Mapped r.1)
  add_after a start c ne small =
      let count = count_irqs readl dist_base - 16 in
      let kernel_same : a.1.kernel ≡ s.kernel = ap (λ (u : IrqState). u.kernel) c.rest in
      let (r, runs, (at_page, ch)) =
        irq_domain_add-Changed count gic a.1 (rw kernel_same ne) small in
      let after : IrqState → (ℕ → IrqDomain) → IrqState = λ u f. record u {
        irq_desc = r.1.irq_desc;
        domains = f;
        kernel = record (u.kernel) { pages = (get_free_page u.kernel.pages).1 };
      } in
      let domains_are = ap (λ (u : IrqState). u.domains) ch.rest in
      (
        r,
        rw start runs,
        (
          at_page ∙ (rw kernel_same),
          record {
            descs = λ q.
                both (within 16 count q) (mapped (get_free_page s.kernel.pages).0 gic q)
                  (r.1.irq_desc q) (a.1.irq_desc q) (s.irq_desc q) (c.descs q)
                  (rw kernel_same at (ch.descs q));
            rest =
                ch.rest
                ∙ ap
                    (λ (u : IrqState).
                      after u
                        (added (get_free_page a.1.kernel.pages).0 (count_irqs readl dist_base - 16)
                          gic a.1).domains)
                    c.rest
                ∙ ap (λ (f : ℕ → IrqDomain). after based f) (sym domains_are);
          },
        ),
      )

  IsInitialised-set :
      (d u : IrqState)
      → Mapped d
      → OnlyWrites (joined (0, d)) u
      → IsInitialised gic dist_base cpu_base
          (count_irqs readl dist_base)
          s
          (set_handle_irq gic_handle_irq u)
  IsInitialised-set d u m w =
      let set = set_handle_irq_lem u in
      let same : u.arch_irq_handler ≡ s.arch_irq_handler =
        ap (λ (x : IrqState). x.arch_irq_handler) w
        ∙ ap (λ (x : IrqState). x.arch_irq_handler) m.rest in
      record {
        descs = λ q.
            ap (λ (x : IrqState). x.irq_desc q) set
            ∙ ap (λ (x : IrqState). x.irq_desc q) w
            ∙ m.descs q;
        gic_data =
            ap (λ (x : IrqState). x.gic_data) set
            ∙ ap (λ (x : IrqState). x.gic_data) w
            ∙ ap
                (λ (x : IrqState). record (x.gic_data) {
                  domain = (get_free_page s.kernel.pages).0;
                })
                m.rest;
        handler =
            ap (λ (x : IrqState). x.arch_irq_handler) set
            ∙ ap
                (λ (h : Option ArchHandler). elim h [
                  | none ↦ some gic_handle_irq
                  | some x ↦ some x
                ])
                same;
        kernel =
            ap (λ (x : IrqState). x.kernel) set
            ∙ ap (λ (x : IrqState). x.kernel) w
            ∙ ap (λ (x : IrqState). x.kernel) m.rest;
      }

  -- On a controller with at most 256 interrupts, and with a page to be had, `gic_init` ends and
  -- returns 0. Every interrupt but the software ones then has its number, the new domain and the
  -- controller's chip, other descriptors are as they were, and `gic_handle_irq` is the handler of
  -- all interrupts unless there was one. Of the kernel, one page more is used.
  pub gic_init-IsInitialised :
      count_irqs readl dist_base ≤ nr_irqs
      → 32 ≤ count_irqs readl dist_base
      → (get_free_page s.kernel.pages).0 ≢ 0
      → nr_irqs < fuel
      → Returns (gic_init readl fuel gic 0 dist_base cpu_base s) (λ r.
        (r.0 ≡ pos 0) × IsInitialised gic dist_base cpu_base (count_irqs readl dist_base) s r.1)
  unfolding gic_init
  gic_init-IsInitialised small some_irqs ne enough =
      let n = count_irqs readl dist_base in
      let page = (get_free_page s.kernel.pages).0 in
      let some_page : (page == 0) ≡ false = ground arith in
      Returns-bind (irq_alloc_descs-Changed 16 (n - 16) based (omega arith)) (λ a (start, c).
        Returns-bind (add_after a start c ne (omega arith)) (λ d (at_page, m).
          rw (at_page, some_page)
            (Returns-bind
              (gic_dist_init-ends readl fuel (joined d)
                (omega (arith, ap (λ (u : IrqState). u.gic_data.gic_irqs) m.rest, small, enough)))
              (λ s3 w3. Returns-bind (gic_cpu_init-ends readl fuel s3 (omega arith)) (λ s4 w4. (
                (pos 0, set_handle_irq gic_handle_irq s4),
                refl,
                (refl, IsInitialised-set d.1 s4 m (OnlyWrites-trans (joined d) s3 s4 w3 w4)),
              ))))))

  -- On a controller with more interrupts `gic_init` faults.
  pub gic_init-beyond :
      nr_irqs < count_irqs readl dist_base → gic_init readl fuel gic 0 dist_base cpu_base s ≡ fault
  unfolding gic_init
  gic_init-beyond large =
      let n = count_irqs readl dist_base in
      let stops : irq_alloc_descs hw_irq_start (n - hw_irq_start) based ≡ fault =
        irq_alloc_descs-beyond 16 (n - 16) based (omega arith) (omega arith) in
      rw stops
