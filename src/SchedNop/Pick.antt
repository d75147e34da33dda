-- ===== src/SchedNop/Pick.antt =====
-- `pick_next_task` chooses a queued task of the highest counter, after two passes at most.
use arm64os.Common.{
  ℕ, suc, ◌+◌, ◌-◌, ◌<◌, ◌≡◌, refl, ◌⊎◌, inl, inr, true, false, Option, none, some, List, [], ◌∷◌,
  map, arith, ◌==◌, length, Bool-cases, length-map, ltb→lt, ltb→le, sym, ap, ◌∙◌, if◌then◌else◌, ok,
  fault, Returns, ◌>>=◌,
}
use mathlib.Core.Path.{subst}
use arm64os.Common.Int.{ℤ, pos, negsuc, ◌+ℤ◌, ◌≤ℤ◌, ltb_ℤ}
use arm64os.ListHead.{list_for_each}
use arm64os.ListHead.Ring.{has, for_each-Chain}
use arm64os.Kernel.{TaskStruct, Image, Kernel, run_list}
use arm64os.SchedNop.{best, goodness, is_zero, reset_score, pick_next_task}
use arm64os.SchedNop.Queue.{IsQueue}
use arm64os.SchedNop.Score.{IsTaskRing, Refilled, refill, reset_score-Refilled}

-- The result of `best`: an upper bound that is the first value or the counter of a listed task.
record IsBest (tasks : ℕ → TaskStruct) (ts : List ℕ) (c : ℤ) (next : Option ℕ) (r : ℤ × Option ℕ)
    : Type 0 where
  start : c ≤ℤ r.0
  upper : (p : ℕ) → has p ts ≡ true → (tasks p).counter ≤ℤ r.0
  reached : (r ≡ (c, next)) ⊎ ((p : ℕ) × (has p ts ≡ true) × (r ≡ ((tasks p).counter, some p)))

best-cons :
    (tasks : ℕ → TaskStruct) (t : ℕ) (ts : List ℕ) (c : ℤ) (next : Option ℕ)
    → best tasks (map run_list (t ∷ ts)) c next ≡ (
        if ltb_ℤ c (tasks t).counter
        then best tasks (map run_list ts) (tasks t).counter (some t)
        else best tasks (map run_list ts) c next)
unfolding best goodness
best-cons tasks t ts c next =
    let e : t + 120 - 120 ≡ t = omega arith in
    subst
      (λ u.
        best tasks (map run_list ts) (if ltb_ℤ c (tasks u).counter then (tasks u).counter else c)
          (if ltb_ℤ c (tasks u).counter then some u else next)
        ≡ (if ltb_ℤ c (tasks t).counter
            then best tasks (map run_list ts) (tasks t).counter (some t)
            else best tasks (map run_list ts) c next))
      (sym e) (elim (Bool-cases (ltb_ℤ c (tasks t).counter)) [ inl h ↦ rw h | inr h ↦ rw h ])

best-IsBest :
    (tasks : ℕ → TaskStruct) (ts : List ℕ) (c : ℤ) (next : Option ℕ)
    → IsBest tasks ts c next (best tasks (map run_list ts) c next)
best-IsBest tasks [] c next = record {
  start = unfold best in omega arith;
  upper = λ p h. cc;
  reached = unfold best in inl refl;
}
best-IsBest tasks (t ∷ ts) c next = elim (Bool-cases (ltb_ℤ c (tasks t).counter)) [
  | inl up ↦
      let r = best-IsBest tasks ts (tasks t).counter (some t) in
      let w : c ≤ℤ (tasks t).counter = omega (arith, ltb→lt _ _ up) in
      rw (best-cons tasks t ts c next, up)
        (record {
          start = omega (arith, r.start, w);
          upper = λ p h. elim (Bool-cases (p == t)) [
            | inl e ↦ let q : p ≡ t = ground arith in rw q r.start
            | inr n ↦ r.upper p (ground arith)
          ];
          reached = elim r.reached [
            | inl e ↦ inr (t, ground arith, e)
            | inr (p, h, e) ↦ inr (p, ground arith, e)
          ];
        })
  | inr down ↦
      let r = best-IsBest tasks ts c next in
      rw (best-cons tasks t ts c next, down)
        (record {
          start = r.start;
          upper = λ p h. elim (Bool-cases (p == t)) [
            | inl e ↦ let q : p ≡ t = ground arith in rw q (omega (arith, ltb→le _ _ down, r.start))
            | inr n ↦ r.upper p (ground arith)
          ];
          reached = elim r.reached [ inl e ↦ inl e | inr (p, h, e) ↦ inr (p, ground arith, e) ];
        })
]

pick-suc :
    (img : Image) (fuel rounds p : ℕ) (c : ℤ) (s : Kernel) (nodes : List ℕ)
    → list_for_each fuel (s.links.next img.rq_head) img.rq_head s.links ≡ some nodes
    → best s.tasks nodes (negsuc 999) none ≡ (c, some p)
    → pick_next_task img fuel (suc rounds) s
      ≡ (if is_zero c then reset_score img fuel s >>= pick_next_task img fuel rounds else ok (p, s))
unfolding pick_next_task
pick-suc img fuel rounds p c s nodes walk e = rw (walk, e)

-- One pass over a queue of tasks whose counters are not negative.
record Pass (img : Image) (fuel rounds : ℕ) (s : Kernel) (ts : List ℕ) : Type 0 where
  task : ℕ
  queued : has task ts ≡ true
  highest : (q : ℕ) → has q ts ≡ true → (s.tasks q).counter ≤ℤ (s.tasks task).counter
  runs : pick_next_task img fuel (suc rounds) s ≡ (
      if is_zero (s.tasks task).counter
      then reset_score img fuel s >>= pick_next_task img fuel rounds
      else ok (task, s))

pass :
    (img : Image) (fuel rounds x : ℕ) (s : Kernel) (ts : List ℕ)
    → IsQueue img s ts
    → has x ts ≡ true
    → length ts < fuel
    → ((q : ℕ) → has q ts ≡ true → pos 0 ≤ℤ (s.tasks q).counter)
    → Pass img fuel rounds s ts
pass img fuel rounds x s ts queue some_queued enough nonneg =
    let b = best-IsBest s.tasks ts (negsuc 999) none in
    let walk =
      for_each-Chain fuel s.links img.rq_head img.rq_head (map run_list ts) queue.ring.chain
        queue.ring.head_out (omega (arith, length-map ts run_list)) in
    elim b.reached [
      | inl e ↦
          let low : pos 0 ≤ℤ negsuc 999 =
            omega (arith, rw e at (b.upper x some_queued), nonneg x some_queued) in
          absurd (omega (arith, low))
      | inr (p, h, e) ↦ record {
        task = p;
        queued = h;
        highest = λ q i. rw e at (b.upper q i);
        runs = pick-suc img fuel rounds p (s.tasks p).counter s (map run_list ts) walk e;
      }
    ]

-- The outcome of `pick_next_task`: the task, and the state after it.
pub record Picked (s : Kernel) (ts us : List ℕ) (r : ℕ × Kernel) : Type 0 where
  pub queued : has r.0 ts ≡ true
  pub highest : (q : ℕ) → has q ts ≡ true → (r.1.tasks q).counter ≤ℤ (r.1.tasks r.0).counter
  pub runnable : pos 1 ≤ℤ (r.1.tasks r.0).counter
  pub only_tasks : r.1 ≡ record s { tasks = r.1.tasks }
  pub refilled :
      (r.1 ≡ s)
      ⊎ (((q : ℕ) → has q ts ≡ true → (s.tasks q).counter ≡ pos 0) × Refilled us s.tasks r.1.tasks)

is_zero→eq : (c : ℤ) → is_zero c ≡ true → c ≡ pos 0
is_zero→eq c h = ground arith

positive : (c : ℤ) → is_zero c ≡ false → pos 0 ≤ℤ c → pos 1 ≤ℤ c
positive c z h = ground arith

all_zero : (c : ℤ) → pos 0 ≤ℤ c → c ≤ℤ pos 0 → c ≡ pos 0
all_zero c h k = ground arith

pub refill_positive : (t : TaskStruct) → pos 0 ≤ℤ t.priority → pos 1 ≤ℤ (refill t).counter
refill_positive t h = priority_added t.priority h
  where
    priority_added : (p : ℤ) → pos 0 ≤ℤ p → pos 1 ≤ℤ pos 25 +ℤ p
    priority_added p h = ground arith

not_zero : (c : ℤ) → pos 1 ≤ℤ c → is_zero c ≡ false
not_zero c h = ground arith

module _ (img : Image) (s : Kernel) (ts us : List ℕ) where
  -- The second pass, over refilled counters, chooses a task.
  second_pass :
      (fuel rounds x : ℕ) (t : Kernel)
      → IsQueue img s ts
      → has x ts ≡ true
      → length ts < fuel
      → t ≡ record s { tasks = t.tasks }
      → ((q : ℕ) → has q ts ≡ true → pos 1 ≤ℤ (t.tasks q).counter)
      → (p : ℕ) × (pick_next_task img fuel (suc rounds) t ≡ ok (p, t))
        × (has p ts ≡ true)
        × ((q : ℕ) → has q ts ≡ true → (t.tasks q).counter ≤ℤ (t.tasks p).counter)
  second_pass fuel rounds x t queue some_queued enough same high =
      let queue' : IsQueue img t ts = record {
        ring = rw (ap (λ (k : Kernel). k.links) same) queue.ring;
        counted = ap (λ (k : Kernel). k.nr_running) same ∙ queue.counted;
      } in
      let two =
        pass img fuel rounds x t ts queue' some_queued enough (λ q h. omega (arith, high q h)) in
      (two.task, two.runs ∙ rw (not_zero _ (high two.task two.queued)), two.queued, two.highest)

  -- With a queue that is not empty, no negative counter or priority in it, and all its tasks in the
  -- task ring, `pick_next_task` ends within two passes, given fuel for the lengths of both, and
  -- chooses a queued task whose counter is positive and highest. It changes nothing, or every queued
  -- counter had run down to 0 and it refilled the counters of the ring, and nothing else.
  pub pick_next_task-Picked :
      (fuel rounds x : ℕ)
      → IsQueue img s ts
      → has x ts ≡ true
      → IsTaskRing img s.tasks us
      → ((q : ℕ) → has q ts ≡ true → has q us ≡ true)
      → ((q : ℕ) → has q ts ≡ true → pos 0 ≤ℤ (s.tasks q).counter)
      → ((q : ℕ) → has q ts ≡ true → pos 0 ≤ℤ (s.tasks q).priority)
      → length ts < fuel
      → length us < fuel
      → Returns (pick_next_task img fuel (suc (suc rounds)) s) (Picked s ts us)
  pick_next_task-Picked fuel rounds x queue some_queued ring in_ring counters priorities lt lu =
      let one = pass img fuel (suc rounds) x s ts queue some_queued lt counters in
      elim (Bool-cases (is_zero (s.tasks one.task).counter)) [
        | inr more ↦ (
          (one.task, s),
          one.runs ∙ rw more,
          record {
            queued = one.queued;
            highest = one.highest;
            runnable = positive _ more (counters one.task one.queued);
            only_tasks = refl;
            refilled = inl refl;
          },
        )
        | inl zeros ↦
            let z = is_zero→eq _ zeros in
            let (t, reset, (filled, rest)) = reset_score-Refilled img fuel s us ring lu in
            let high : (q : ℕ) → has q ts ≡ true → pos 1 ≤ℤ (t.tasks q).counter =
              λ q h. rw (filled q, in_ring q h) (refill_positive (s.tasks q) (priorities q h)) in
            let (p, runs, queued, highest) =
              second_pass fuel rounds x t queue some_queued lt rest high in
            (
              (p, t),
              one.runs ∙ rw (zeros, reset) runs,
              record {
                queued = queued;
                highest = highest;
                runnable = high p queued;
                only_tasks = rest;
                refilled =
                    inr (λ q h. all_zero _ (counters q h) (rw z at (one.highest q h)), filled);
              },
            )
      ]

-- On an empty queue `pick_next_task` returns a pointer that it never set, a fault, however the
-- tasks stand: the search ends with a weight of -1000, which is no reason to repeat.
pub pick_next_task-empty :
    (img : Image) (s : Kernel) (fuel rounds : ℕ)
    → IsQueue img s []
    → pick_next_task img (suc fuel) (suc rounds) s ≡ fault
pick_next_task-empty img s fuel rounds queue =
    let walk =
      for_each-Chain (suc fuel) s.links img.rq_head img.rq_head [] queue.ring.chain refl
        (omega arith) in
    pick_unset img (suc fuel) rounds s walk
  where
    pick_unset :
        (img : Image) (fuel rounds : ℕ) (s : Kernel)
        → list_for_each fuel (s.links.next img.rq_head) img.rq_head s.links ≡ some []
        → pick_next_task img fuel (suc rounds) s ≡ fault
    pick_unset img fuel rounds s walk = unfold pick_next_task in rw walk
