-- ===== src/Common/Results.antt =====
-- The result of code that may fault or loop. A fault is what C leaves undefined: a null or wild
-- pointer is dereferenced, or an index leaves its array; nothing is said of what follows it.
use mathlib.Core.Path.{◌≡◌, ap, ◌∙◌}
use mathlib.Core.Option.{Option, none, some}

pub data Result {μ} (X : Type μ) : Type μ where
  fault out_of_fuel : Result X
  ok : X → Result X

-- What follows runs on the value alone.
abbrev pub ◌>>=◌ {μ ν} : {X : Type μ} {Y : Type ν} (run : Result X) (next : X → Result Y) → Result Y
fault >>= next = fault
out_of_fuel >>= next = out_of_fuel
ok x >>= next = next x

infixl 5 ◌>>=◌
-- The run ends without a fault and within its fuel, in a result that satisfies `P`.
abbrev pub Returns {ℓ κ} : {A : Type ℓ} → Result A → (A → Type κ) → Type (ℓ ⊔ κ)
Returns {A} r P = (a : A) × (r ≡ ok a) × P a

-- A pointer that is null or was never set faults where it is used.
abbrev pub deref {ℓ} : {A : Type ℓ} → Option A → Result A
deref none = fault
deref (some a) = ok a

-- A loop that did not come to its end.
abbrev pub ended {ℓ} : {A : Type ℓ} → Option A → Result A
ended none = out_of_fuel
ended (some a) = ok a

-- A chain of runs that each end.
pub Returns-bind {ℓ κ μ ν} :
    {A : Type ℓ} {B : Type κ} {P : A → Type μ} {Q : B → Type ν} {m : Result A} {f : A → Result B}
    → Returns m P
    → ((a : A) → P a → Returns (f a) Q)
    → Returns (m >>= f) Q
Returns-bind {f} (a, e, p) next = let (b, runs, q) = next a p in (b, ap (λ r. r >>= f) e ∙ runs, q)
