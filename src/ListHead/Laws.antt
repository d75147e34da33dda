-- ===== src/ListHead/Laws.antt =====
-- The operations of list.h on lists.
use arm64os.Common.{
  ℕ, ◌≡◌, refl, ◌≢◌, ◌↔◌, true, false, ◌||◌, List, [], ◌∷◌, ◌++◌, arith, ◌==◌, Bool-cases, inl, inr,
}
use arm64os.ListHead.{
  Links, init_list_head, list_insert, list_add, list_add_tail, list_del, list_empty, list_poison1,
  list_poison2,
}
use arm64os.ListHead.Ring.{
  has, remove, Distinct, has-remove, remove-Distinct, Chain, IsRing, Chain-frame,
}

-- `INIT_LIST_HEAD` makes an empty list.
pub init-IsRing : (head : ℕ) (l : Links) → IsRing (init_list_head head l) head []
unfolding init_list_head
init-IsRing head l = record { chain = ground arith; distinct = tt; head_out = refl }

-- `list_empty` holds of exactly the empty lists.
pub list_empty_iff :
    (l : Links) (head : ℕ) (xs : List ℕ) → IsRing l head xs → (list_empty head l ≡ true) ↔ (xs ≡ [])
unfolding list_empty
list_empty_iff l head [] r = (λ h. refl, λ h. ground (arith, r.chain.0))
list_empty_iff l head (x ∷ xs) r = (λ h. absurd (ground (arith, r.chain.0, r.head_out)), λ h. cc)

-- `list_add` of a node that is neither in the list nor its head puts that node in front of the others.
pub list_add-IsRing :
    (l : Links) (new head : ℕ) (xs : List ℕ)
    → IsRing l head xs
    → has new xs ≡ false
    → new ≢ head
    → IsRing (list_add new head l) head (new ∷ xs)
unfolding list_add
list_add-IsRing l new head [] r out ne = record {
  chain = ground (arith, r.chain);
  distinct = (refl, tt);
  head_out = ground arith;
}
list_add-IsRing l new head (x ∷ xs) r out ne = record {
  chain = (
    ground arith,
    ground arith,
    (
      ground (arith, r.chain.0),
      ground (arith, r.chain.0),
      Chain-frame l (list_add new head l) x head xs r.chain.2 (ground (arith, r.head_out))
          (ground (arith, r.chain.0, r.head_out))
          (λ a h. (ground (arith, r.head_out), ground (arith, r.chain.0, r.distinct.0))),
    ),
  );
  distinct = (out, r.distinct);
  head_out = ground (arith, r.head_out);
}

-- Where the links of a chain lead: to its nodes, or to its ends.
next_in :
    (l : Links) (before stop x : ℕ) (xs : List ℕ)
    → Chain l before xs stop
    → has x xs ≡ true
    → (has (l.next x) xs || (l.next x == stop)) ≡ true
next_in l before stop x [] c h = cc
next_in l before stop x (y ∷ []) c h = ground (arith, c.2)
next_in l before stop x (y ∷ z ∷ zs) c h = ground (arith, c.2.0, next_in l y stop x (z ∷ zs) c.2)

prev_in :
    (l : Links) (before stop x : ℕ) (xs : List ℕ)
    → Chain l before xs stop
    → has x xs ≡ true
    → has (l.prev x) (before ∷ xs) ≡ true
prev_in l before stop x [] c h = cc
prev_in l before stop x (y ∷ ys) c h = ground (arith, c.1, prev_in l y stop x ys c.2)

last_in :
    (l : Links) (before stop : ℕ) (xs : List ℕ)
    → Chain l before xs stop
    → has (l.prev stop) (before ∷ xs) ≡ true
last_in l before stop [] c = ground (arith, c.1)
last_in l before stop (y ∷ ys) c = ground (arith, last_in l y stop ys c.2)

module _ (l : Links) (x stop : ℕ) where
  del_first-Chain :
      (before : ℕ) (ys : List ℕ)
      → Chain l before (x ∷ ys) stop
      → has before (x ∷ ys) ≡ false
      → Distinct (x ∷ ys)
      → has stop (x ∷ ys) ≡ false
      → Chain (list_del x l) before ys stop
  unfolding list_del
  del_first-Chain before [] c out d end = ground (arith, c.2)
  del_first-Chain before (z ∷ zs) c out d end = (
    ground (arith, c.2.0),
    ground (arith, c.2.0),
    Chain-frame l (list_del x l) z stop zs c.2.2 (ground arith) (ground (arith, c.2.0))
        (λ a h. (ground arith, ground (arith, c.2.0))),
  )

  del-Chain :
      (before : ℕ) (xs : List ℕ)
      → Chain l before xs stop
      → has before xs ≡ false
      → Distinct xs
      → has stop xs ≡ false
      → has x xs ≡ true
      → Chain (list_del x l) before (remove x xs) stop
  unfolding list_del
  del-Chain before [] c out d end h = cc
  del-Chain before (y ∷ ys) c out d end h = elim (Bool-cases (x == y)) [
    | inl e ↦
        let p : y ≡ x = ground arith in
        rw e (del_first-Chain before ys (rw p at c) (rw p at out) (rw p at d) (rw p at end))
    | inr n ↦ rw n (
      ground (arith, prev_in l y stop x ys c.2),
      ground (arith, next_in l y stop x ys c.2),
      del-Chain y ys c.2 (ground arith) d.1 (ground arith) (ground arith),
    )
  ]

-- `list_del` of a node of the list takes that node out and keeps the others in order; the node's own
-- links are poisoned.
pub list_del-IsRing :
    (l : Links) (x head : ℕ) (xs : List ℕ)
    → IsRing l head xs
    → has x xs ≡ true
    → IsRing (list_del x l) head (remove x xs)
      × ((list_del x l).next x ≡ list_poison1)
      × ((list_del x l).prev x ≡ list_poison2)
list_del-IsRing l x head xs r h = (
  record {
    chain = del-Chain l x head head xs r.chain r.head_out r.distinct r.head_out h;
    distinct = remove-Distinct x xs r.distinct;
    head_out = has-remove head x xs r.head_out;
  },
  unfold list_del in ground arith,
  unfold list_del in ground arith,
)

insert_last-Chain :
    (l : Links) (new before stop : ℕ) (xs : List ℕ)
    → Chain l before xs stop
    → has before xs ≡ false
    → Distinct xs
    → has stop xs ≡ false
    → has new (before ∷ stop ∷ xs) ≡ false
    → Chain (list_insert new (l.prev stop) stop l) before (xs ++ new ∷ []) stop
unfolding list_insert
insert_last-Chain l new before stop [] c out d end fresh = ground (arith, c.1)
insert_last-Chain l new before stop (y ∷ ys) c out d end fresh = (
  ground (arith, c.0, last_in l y stop ys c.2),
  ground (arith, c.1),
  insert_last-Chain l new y stop ys c.2 d.0 d.1 (ground arith) (ground arith),
)

pub has-append : (a b : ℕ) (xs : List ℕ) → has a (xs ++ b ∷ []) ≡ (has a xs || (a == b))
has-append a b [] = ground arith
has-append a b (x ∷ xs) = ground (arith, has-append a b xs)

pub append-Distinct :
    (b : ℕ) (xs : List ℕ) → Distinct xs → has b xs ≡ false → Distinct (xs ++ b ∷ [])
append-Distinct b [] d h = (refl, tt)
append-Distinct b (x ∷ xs) d h =
    (ground (arith, has-append x b xs, d.0), append-Distinct b xs d.1 (ground arith))

-- `list_add_tail` of a node that is neither in the list nor its head puts that node at the end.
pub list_add_tail-IsRing :
    (l : Links) (new head : ℕ) (xs : List ℕ)
    → IsRing l head xs
    → has new xs ≡ false
    → new ≢ head
    → IsRing (list_add_tail new head l) head (xs ++ new ∷ [])
unfolding list_add_tail
list_add_tail-IsRing l new head xs r out ne = record {
  chain =
      insert_last-Chain l new head head xs r.chain r.head_out r.distinct r.head_out (ground arith);
  distinct = append-Distinct new xs r.distinct out;
  head_out = ground (arith, has-append head new xs, r.head_out);
}
