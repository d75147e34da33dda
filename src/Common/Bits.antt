-- ===== src/Common/Bits.antt =====
-- The bit operations of the source as arithmetic: a low mask, a disjoint or, a cleared mask.
use Prim.Native.Nat.{ℕ, zero, suc, ◌+◌, ◌-◌, ◌*◌, ◌/◌, ◌%◌, ◌^◌, ◌≤◌, ◌<◌, min, max}
use Prim.Native.Nat.{bit_and, bit_or, digits, bit_and-bitwise, bit_or-bitwise}
use mathlib.Core.Path.{◌≡◌, refl, ap}
use native.Mathlib.Nat.{pow-suc, one-le-pow}
use native.Mathlib.Omega.{arith}

-- Any two round counts that cover the digits of `a` give one result.
module _ (z : ℕ → ℕ) (f : ℕ → ℕ → ℕ) where
  spare_rounds : (i j a b : ℕ) → a ≤ i → a ≤ j → digits z f i a b ≡ digits z f j a b
  spare_rounds zero zero a b h k = refl
  spare_rounds zero (suc j) zero b h k = refl
  spare_rounds (suc i) zero zero b h k = refl
  spare_rounds (suc i) (suc j) zero b h k = refl
  spare_rounds zero (suc j) (suc a) b h k = absurd (omega arith)
  spare_rounds (suc i) zero (suc a) b h k = absurd (omega arith)
  spare_rounds (suc i) (suc j) (suc a) b h k =
      ap (λ (t : ℕ). t * 2 + f (suc a % 2) (b % 2))
        (spare_rounds i j (suc a / 2) (b / 2) (omega arith) (omega arith))

and_low_digit : (x y : ℕ) → bit_and x y ≡ min (x % 2) (y % 2) + 2 * bit_and (x / 2) (y / 2)
and_low_digit zero y = omega (arith, bit_and-bitwise 0 (y / 2), bit_and-bitwise 0 y)
and_low_digit (suc x) y =
    let half = suc x / 2 in
    omega (
      arith,
      spare_rounds (λ _. 0) min x half half (y / 2) (omega arith) (omega arith),
      bit_and-bitwise half (y / 2),
      bit_and-bitwise (suc x) y,
    )

or_low_digit : (x y : ℕ) → bit_or x y ≡ max (x % 2) (y % 2) + 2 * bit_or (x / 2) (y / 2)
or_low_digit zero y = omega (arith, bit_or-bitwise 0 (y / 2), bit_or-bitwise 0 y)
or_low_digit (suc x) y =
    let half = suc x / 2 in
    omega (
      arith,
      spare_rounds (λ d. d) max x half half (y / 2) (omega arith) (omega arith),
      bit_or-bitwise half (y / 2),
      bit_or-bitwise (suc x) y,
    )

and-zero_below : (n a : ℕ) → a < n → bit_and a 0 ≡ 0
and-zero_below zero a h = absurd (omega arith)
and-zero_below (suc n) zero h = refl
and-zero_below (suc n) (suc a) h =
    omega (arith, and_low_digit (suc a) 0, and-zero_below n (suc a / 2) (omega arith))

or-zero_below : (n a : ℕ) → a < n → bit_or a 0 ≡ a
or-zero_below zero a h = absurd (omega arith)
or-zero_below (suc n) zero h = refl
or-zero_below (suc n) (suc a) h =
    omega (arith, or_low_digit (suc a) 0, or-zero_below n (suc a / 2) (omega arith))

double_pow : (hi k : ℕ) → hi * 2 ^ suc k ≡ 2 * (hi * 2 ^ k)
double_pow hi k = omega (arith, ap (λ (t : ℕ). hi * t) (pow-suc 2 k))

and_mask_of_sum : (k hi lo : ℕ) → lo < 2 ^ k → bit_and (hi * 2 ^ k + lo) (2 ^ k - 1) ≡ lo
and_mask_of_sum zero hi lo h =
    ground (arith, and-zero_below (suc (hi * 2 ^ 0 + lo)) (hi * 2 ^ 0 + lo))
and_mask_of_sum (suc k) hi lo h = ground (
  arith,
  double_pow hi k,
  pow-suc 2 k,
  one-le-pow k 2 (omega arith),
  and_low_digit (hi * 2 ^ suc k + lo) (2 ^ suc k - 1),
  and_mask_of_sum k hi (lo / 2) (omega (arith, pow-suc 2 k)),
)

-- A mask of the `k` lowest bits leaves the remainder by `2 ^ k`.
pub and_low_mask : (k a : ℕ) → bit_and a (2 ^ k - 1) ≡ a % 2 ^ k
and_low_mask k a =
    ground (arith, one-le-pow k 2 (omega arith), and_mask_of_sum k (a / 2 ^ k) (a % 2 ^ k))

-- Or of a multiple of `2 ^ k` and a number below it is the sum.
pub or_disjoint : (k hi lo : ℕ) → lo < 2 ^ k → bit_or (hi * 2 ^ k) lo ≡ hi * 2 ^ k + lo
or_disjoint zero hi lo h = ground (arith, or-zero_below (suc hi) hi)
or_disjoint (suc k) hi lo h = ground (
  arith,
  double_pow hi k,
  or_low_digit (hi * 2 ^ suc k) lo,
  or_disjoint k hi (lo / 2) (omega (arith, pow-suc 2 k)),
)

-- Both operations work on the parts above and below a place of the digits.
pub or_split :
    (k hi lo hi' lo' : ℕ)
    → lo < 2 ^ k
    → lo' < 2 ^ k
    → bit_or (hi * 2 ^ k + lo) (hi' * 2 ^ k + lo') ≡ bit_or hi hi' * 2 ^ k + bit_or lo lo'
or_split zero hi lo hi' lo' h h' =
    let e : lo ≡ 0 = omega arith in
    let e' : lo' ≡ 0 = omega arith in rw (e, e') (ground (arith, or-zero_below 1 0))
or_split (suc k) hi lo hi' lo' h h' = ground (
  arith,
  double_pow hi k,
  double_pow hi' k,
  double_pow (bit_or hi hi') k,
  or_low_digit (hi * 2 ^ suc k + lo) (hi' * 2 ^ suc k + lo'),
  or_low_digit lo lo',
  or_split k hi (lo / 2) hi' (lo' / 2) (omega (arith, pow-suc 2 k)) (omega (arith, pow-suc 2 k)),
)

pub and_split :
    (k hi lo hi' lo' : ℕ)
    → lo < 2 ^ k
    → lo' < 2 ^ k
    → bit_and (hi * 2 ^ k + lo) (hi' * 2 ^ k + lo') ≡ bit_and hi hi' * 2 ^ k + bit_and lo lo'
and_split zero hi lo hi' lo' h h' =
    let e : lo ≡ 0 = omega arith in
    let e' : lo' ≡ 0 = omega arith in rw (e, e') (ground (arith, and-zero_below 1 0))
and_split (suc k) hi lo hi' lo' h h' = ground (
  arith,
  double_pow hi k,
  double_pow hi' k,
  double_pow (bit_and hi hi') k,
  and_low_digit (hi * 2 ^ suc k + lo) (hi' * 2 ^ suc k + lo'),
  and_low_digit lo lo',
  and_split k hi (lo / 2) hi' (lo' / 2) (omega (arith, pow-suc 2 k)) (omega (arith, pow-suc 2 k)),
)

pub or_zero : (a : ℕ) → bit_or a 0 ≡ a
or_zero a = or-zero_below (suc a) a (omega arith)

pub and_zero : (a : ℕ) → bit_and a 0 ≡ 0
and_zero a = and-zero_below (suc a) a (omega arith)

zero-or_below : (n b : ℕ) → b < n → bit_or 0 b ≡ b
zero-or_below zero b h = absurd (omega arith)
zero-or_below (suc n) zero h = refl
zero-or_below (suc n) (suc b) h =
    omega (arith, or_low_digit 0 (suc b), zero-or_below n (suc b / 2) (omega arith))

pub zero_or : (b : ℕ) → bit_or 0 b ≡ b
zero_or b = zero-or_below (suc b) b (omega arith)

or_below : (n a b : ℕ) → a + b < n → (a ≤ bit_or a b) × (b ≤ bit_or a b)
or_below zero a b h = absurd (omega arith)
or_below (suc n) zero zero h = omega arith
or_below (suc n) zero (suc b) h =
    omega (arith, or_low_digit 0 (suc b), or_below n 0 (suc b / 2) (omega arith))
or_below (suc n) (suc a) b h =
    omega (arith, or_low_digit (suc a) b, or_below n (suc a / 2) (b / 2) (omega arith))

-- Either operand is at most the or of both.
pub or_bounds : (a b : ℕ) → (a ≤ bit_or a b) × (b ≤ bit_or a b)
or_bounds a b = or_below (suc (a + b)) a b (omega arith)

pub or-lt : (k a b : ℕ) → a < 2 ^ k → b < 2 ^ k → bit_or a b < 2 ^ k
or-lt zero a b h h' =
    let e : a ≡ 0 = omega arith in let e' : b ≡ 0 = omega arith in rw (e, e') (omega arith)
or-lt (suc k) a b h h' = omega (
  arith,
  pow-suc 2 k,
  or_low_digit a b,
  or-lt k (a / 2) (b / 2) (omega (arith, pow-suc 2 k)) (omega (arith, pow-suc 2 k)),
)

-- A mask of `n` bits from the place `k` on leaves those bits.
pub and_field : (n k x : ℕ) → bit_and x ((2 ^ n - 1) * 2 ^ k) ≡ x / 2 ^ k % 2 ^ n * 2 ^ k
and_field n k x =
    let split =
      and_split k (x / 2 ^ k) (x % 2 ^ k) (2 ^ n - 1) 0
        (ground (arith, one-le-pow k 2 (omega arith)))
        (ground (arith, one-le-pow k 2 (omega arith))) in
    let whole : x / 2 ^ k * 2 ^ k + x % 2 ^ k ≡ x = ground (arith, one-le-pow k 2 (omega arith)) in
    let mask : (2 ^ n - 1) * 2 ^ k + 0 ≡ (2 ^ n - 1) * 2 ^ k = omega arith in
    let joined = rw (whole, mask) at split in
    let low = and_zero (x % 2 ^ k) in
    let high = ap (λ (t : ℕ). t * 2 ^ k) (and_low_mask n (x / 2 ^ k)) in
    omega (arith, joined, low, high)

-- `x & ~m`
abbrev pub and_not : ℕ → ℕ → ℕ
and_not x m = x - bit_and x m
