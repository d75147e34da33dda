-- ===== src/Fork/Links.antt =====
-- `SET_LINKS` adds a task to the ring of all tasks.
use arm64os.Common.{ℕ, ◌≡◌, refl, ◌≢◌, true, false, List, [], ◌∷◌, ◌++◌, arith, ◌==◌, if◌then◌else◌}
use arm64os.ListHead.Ring.{has, Distinct}
use arm64os.ListHead.Laws.{has-append, append-Distinct}
use arm64os.Kernel.{TaskStruct, Image}
use arm64os.SchedNop.Score.{TaskChain, IsTaskRing}
use arm64os.Fork.{set_links}

abbrev pub last_of : ℕ → List ℕ → ℕ
last_of p [] = p
last_of p (u ∷ us) = last_of u us

-- The ring behind `init_task`, whose `prev_task` is the last task of it.
pub record IsLinked (img : Image) (tasks : ℕ → TaskStruct) (us : List ℕ) : Type 0 where
  pub ring : IsTaskRing img tasks us
  pub last : (tasks img.init_task).prev_task ≡ last_of img.init_task us

has-last_of : (p : ℕ) (us : List ℕ) → has (last_of p us) (p ∷ us) ≡ true
has-last_of p [] = ground arith
has-last_of p (u ∷ us) = ground (arith, has-last_of u us)

module _ (img : Image) (p : ℕ) (tasks : ℕ → TaskStruct) where
  abbrev old_last : ℕ
  old_last = (tasks img.init_task).prev_task

  set_links-next :
      (a : ℕ)
      → p ≢ img.init_task
      → p ≢ old_last
      → (set_links img p tasks a).next_task
        ≡ (if a == p then img.init_task else if a == old_last then p else (tasks a).next_task)
  unfolding set_links
  set_links-next a h k = ground arith

  -- All that `SET_LINKS` leaves alone of a task.
  pub set_links-keeps :
      (a : ℕ)
      → set_links img p tasks a ≡ record (tasks a) {
        next_task = (set_links img p tasks a).next_task;
        prev_task = (set_links img p tasks a).prev_task;
      }
  unfolding set_links
  set_links-keeps a = ground arith

  last_of-append : (q : ℕ) (us : List ℕ) → last_of q (us ++ p ∷ []) ≡ p
  last_of-append q [] = refl
  last_of-append q (u ∷ us) = last_of-append u us

  chain_end :
      (q : ℕ) (us : List ℕ)
      → p ≢ img.init_task
      → old_last ≡ last_of q us
      → has p (q ∷ us) ≡ false
      → Distinct (q ∷ us)
      → TaskChain tasks q us img.init_task
      → TaskChain (set_links img p tasks) q (us ++ p ∷ []) img.init_task
  chain_end q [] ne last out d c =
      (ground (arith, set_links-next q), ground (arith, set_links-next p))
  chain_end q (u ∷ us) ne last out d c = (
    ground (arith, set_links-next q, has-last_of u us, c.0),
    chain_end u us ne last (ground arith) d.1 c.1,
  )

  -- Linking a task that is not in the ring puts it at the end of the ring, and keeps the ring well
  -- formed, with the new task as the last.
  pub set_links-IsLinked :
      (us : List ℕ)
      → IsLinked img tasks us
      → p ≢ img.init_task
      → has p us ≡ false
      → IsLinked img (set_links img p tasks) (us ++ p ∷ [])
  set_links-IsLinked us r ne out = record {
    ring = record {
      chain =
          chain_end img.init_task us ne r.last (ground arith) (r.ring.init_out, r.ring.distinct)
            r.ring.chain;
      distinct = append-Distinct p us r.ring.distinct out;
      init_out = ground (arith, has-append img.init_task p us, r.ring.init_out);
    };
    last = unfold set_links in (ground (arith, last_of-append img.init_task us));
  }
