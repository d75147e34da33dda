-- ===== src/ListHead.antt =====
-- include/list.h: circular doubly linked lists of `struct list_head`, threaded through memory. The
-- store of links is two functions from the address of a node; every node may be written.
pub mod Ring
pub mod Laws
use arm64os.Common.{ℕ, zero, suc, Bool, Option, none, some, List, [], ◌∷◌, ◌==◌}
use arm64os.Common.{if◌then◌else◌, update}

pub record Links : Type 0 where
  pub next : ℕ → ℕ
  pub prev : ℕ → ℕ

abbrev pub set_next : ℕ → ℕ → Links → Links
set_next p v l = record l { next = update l.next p v }

abbrev pub set_prev : ℕ → ℕ → Links → Links
set_prev p v l = record l { prev = update l.prev p v }

-- (void *) 0x00100100 + 0xdead000000000000
abbrev pub list_poison1 : ℕ
list_poison1 = 0xdead000000100100

abbrev pub list_poison2 : ℕ
list_poison2 = 0xdead000000200200

unfoldable pub init_list_head : ℕ → Links → Links
init_list_head list l = set_prev list list (set_next list list l)

-- `__list_add`: its four assignments, in order.
unfoldable pub list_insert : (new prev next : ℕ) → Links → Links
list_insert new prev next l =
    set_next prev new (set_prev new prev (set_next new next (set_prev next new l)))

unfoldable pub list_add : (new head : ℕ) → Links → Links
unfolding list_insert
list_add new head l = list_insert new head (l.next head) l

unfoldable pub list_add_tail : (new head : ℕ) → Links → Links
unfolding list_insert
list_add_tail new head l = list_insert new (l.prev head) head l

-- `__list_del`
unfoldable pub list_unlink : (prev next : ℕ) → Links → Links
list_unlink prev next l = set_next prev next (set_prev next prev l)

unfoldable pub list_del : (entry : ℕ) → Links → Links
unfolding list_unlink
list_del entry l =
    set_prev entry list_poison2
      (set_next entry list_poison1 (list_unlink (l.prev entry) (l.next entry) l))

unfoldable pub list_empty : (head : ℕ) → Links → Bool
list_empty head l = l.next head == head

-- `list_for_each`: the nodes that the loop visits from `pos` on, on fuel; `none` means that the fuel
-- ran out before the head came up again.
unfoldable pub list_for_each : ℕ → (pos head : ℕ) → Links → Option (List ℕ)
list_for_each zero pos head l = none
list_for_each (suc fuel) pos head l =
    let rest = list_for_each fuel (l.next pos) head l in
    if pos == head then some [] else elim rest [ none ↦ none | some xs ↦ some (pos ∷ xs) ]
