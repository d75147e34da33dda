-- ===== src/SchedNop/Score.antt =====
-- `reset_score` gives a new time slice to every task of the ring behind `init_task`.
use arm64os.Common.{
  ℕ, zero, suc, ◌<◌, ◌≡◌, refl, false, List, [], ◌∷◌, arith, ◌∙◌, length, if◌then◌else◌, update,
  Returns,
}
use arm64os.Common.Int.{◌+ℤ◌}
use arm64os.ListHead.Ring.{has, Distinct}
use arm64os.Kernel.{TaskStruct, Image, Kernel}
use arm64os.SchedNop.{def_counter, reset_loop, reset_score}

-- The `next_task` links lead from `p` through the tasks `us` to `stop`.
abbrev pub TaskChain : (ℕ → TaskStruct) → ℕ → List ℕ → ℕ → Type 0
TaskChain tasks p [] stop = (tasks p).next_task ≡ stop
TaskChain tasks p (u ∷ us) stop = ((tasks p).next_task ≡ u) × TaskChain tasks u us stop

-- The tasks of the ring, `init_task` aside.
pub record IsTaskRing (img : Image) (tasks : ℕ → TaskStruct) (us : List ℕ) : Type 0 where
  pub chain : TaskChain tasks img.init_task us img.init_task
  pub distinct : Distinct us
  pub init_out : has img.init_task us ≡ false

abbrev pub refill : TaskStruct → TaskStruct
refill t = record t { counter = def_counter +ℤ t.priority }

-- The tasks of `us` refilled, all others unchanged.
abbrev pub Refilled : List ℕ → (ℕ → TaskStruct) → (ℕ → TaskStruct) → Type 0
Refilled us before after = (a : ℕ) → after a ≡ (if has a us then refill (before a) else before a)

TaskChain-refill :
    (tasks : ℕ → TaskStruct) (q p stop : ℕ) (us : List ℕ)
    → TaskChain tasks p us stop
    → TaskChain (update tasks q (refill (tasks q))) p us stop
TaskChain-refill tasks q p stop [] c = ground arith
TaskChain-refill tasks q p stop (u ∷ us) c = (ground arith, TaskChain-refill tasks q u stop us c.1)

reset_loop-Refilled :
    (img : Image) (fuel p : ℕ) (tasks : ℕ → TaskStruct) (us : List ℕ)
    → TaskChain tasks p us img.init_task
    → Distinct us
    → has img.init_task us ≡ false
    → length us < fuel
    → Returns (reset_loop img fuel p tasks) (Refilled us tasks)
unfolding reset_loop
reset_loop-Refilled img zero p tasks us c d out h = absurd (omega arith)
reset_loop-Refilled img (suc fuel) p tasks [] c d out h = (tasks, ground arith, λ a. refl)
reset_loop-Refilled img (suc fuel) p tasks (u ∷ us) c d out h =
    let rest =
      reset_loop-Refilled img fuel u (update tasks u (refill (tasks u))) us
        (TaskChain-refill tasks u u img.init_task us c.1) d.1 (ground arith) (omega arith) in
    (rest.0, ground (arith, rest.1), λ a. ground (arith, rest.2 a))

-- `reset_score` ends, given one round more than the ring has tasks besides `init_task`, and sets the
-- counter of each of them to DEF_COUNTER and its priority; `init_task` and all else keep theirs.
pub reset_score-Refilled :
    (img : Image) (fuel : ℕ) (s : Kernel) (us : List ℕ)
    → IsTaskRing img s.tasks us
    → length us < fuel
    → Returns
        (reset_score img fuel s)
        (λ t. Refilled us s.tasks t.tasks × (t ≡ record s { tasks = t.tasks }))
unfolding reset_score
reset_score-Refilled img fuel s us r h =
    let run =
      reset_loop-Refilled img fuel img.init_task s.tasks us r.chain r.distinct r.init_out h in
    (record s { tasks = run.0 }, rw run.1, (run.2, refl))

-- The ring depends on the `next_task` links alone.
pub TaskChain-ext :
    (a b : ℕ → TaskStruct) (p stop : ℕ) (us : List ℕ)
    → ((q : ℕ) → (b q).next_task ≡ (a q).next_task)
    → TaskChain a p us stop
    → TaskChain b p us stop
TaskChain-ext a b p stop [] same c = same p ∙ c
TaskChain-ext a b p stop (u ∷ us) same c = (same p ∙ c.0, TaskChain-ext a b u stop us same c.1)
