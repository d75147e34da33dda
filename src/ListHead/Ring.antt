-- ===== src/ListHead/Ring.antt =====
-- What a list stands for: the nodes between the head and itself, in order, all distinct.
use arm64os.Common.{
  ℕ, zero, suc, ◌<◌, ◌≡◌, refl, Bool, true, false, ◌||◌, some, List, [], ◌∷◌, arith, ◌==◌, length,
  if◌then◌else◌,
}
use arm64os.ListHead.{Links, list_for_each}

abbrev pub has : ℕ → List ℕ → Bool
has a [] = false
has a (x ∷ xs) = (a == x) || has a xs

abbrev pub Distinct : List ℕ → Type 0
Distinct [] = Unit {0}
Distinct (x ∷ xs) = (has x xs ≡ false) × Distinct xs

-- The list without the first occurrence of `a`.
abbrev pub remove : ℕ → List ℕ → List ℕ
remove a [] = []
remove a (x ∷ xs) = if a == x then xs else x ∷ remove a xs

pub has-remove : (a b : ℕ) (xs : List ℕ) → has a xs ≡ false → has a (remove b xs) ≡ false
has-remove a b [] h = refl
has-remove a b (x ∷ xs) h = ground (arith, has-remove a b xs)

pub remove-Distinct : (b : ℕ) (xs : List ℕ) → Distinct xs → Distinct (remove b xs)
remove-Distinct b [] d = tt
remove-Distinct b (x ∷ xs) d = ground (arith, d.0, d.1, remove-Distinct b xs d.1, has-remove x b xs)

-- From `p`, behind `before`, the `next` links lead through `xs` to `stop`, and `prev` leads back.
abbrev pub Chain : Links → (before : ℕ) → List ℕ → (stop : ℕ) → Type 0
Chain l before [] stop = (l.next before ≡ stop) × (l.prev stop ≡ before)
Chain l before (x ∷ xs) stop = (l.next before ≡ x) × (l.prev x ≡ before) × Chain l x xs stop

-- `head` is the head of a circular list of the nodes `xs`.
pub record IsRing (l : Links) (head : ℕ) (xs : List ℕ) : Type 0 where
  pub chain : Chain l head xs head
  pub distinct : Distinct xs
  pub head_out : has head xs ≡ false

-- A chain survives a change of other nodes.
pub Chain-frame :
    (l m : Links) (before stop : ℕ) (xs : List ℕ)
    → Chain l before xs stop
    → m.next before ≡ l.next before
    → m.prev stop ≡ l.prev stop
    → ((a : ℕ) → has a xs ≡ true → (m.next a ≡ l.next a) × (m.prev a ≡ l.prev a))
    → Chain m before xs stop
Chain-frame l m before stop [] c n p same = ground arith
Chain-frame l m before stop (x ∷ xs) c n p same = (
  ground arith,
  ground (arith, same x),
  Chain-frame l m x stop xs c.2 (ground (arith, same x)) p (λ a h. same a (ground arith)),
)

-- The loop of `list_for_each` over a list visits its nodes in order and then ends, given one round
-- more than there are nodes.
pub for_each-Chain :
    (fuel : ℕ) (l : Links) (before head : ℕ) (xs : List ℕ)
    → Chain l before xs head
    → has head xs ≡ false
    → length xs < fuel
    → list_for_each fuel (l.next before) head l ≡ some xs
unfolding list_for_each
for_each-Chain zero l before head xs c out h = absurd (omega arith)
for_each-Chain (suc fuel) l before head [] c out h = ground arith
for_each-Chain (suc fuel) l before head (x ∷ xs) c out h =
    ground (arith, for_each-Chain fuel l x head xs c.2)
