-- ===== src/Printk/Digits.antt =====
-- The digits that `number` writes stand for the number.
use native.Mathlib.Nat.{pow-suc, div-add-mod', mod-lt, div-lt_iff_lt-mul, mul-le-mul_left}
use arm64os.Common.{
  ℕ, zero, suc, ◌+◌, ◌-◌, ◌*◌, ◌/◌, ◌%◌, ◌^◌, ◌≤◌, ◌<◌, ◌≡◌, refl, arith, ap, sym, ◌∙◌, Bool, true,
  false, ltb, ◌==◌, ◌||◌, append-nil, ==_iff, if◌then◌else◌, some, List, [], ◌∷◌, Bool-cases, inl,
  inr, length,
}
use arm64os.Common.Int.{ℤ, pos, negsuc, ◌-ℤ◌, ◌≤ℤ◌, ltb_ℤ}
use arm64os.Printk.{
  NumberType, digit, digits_loop, digits, pad, prefix, prefix_width, layout, sign_of, number,
}

-- The value of a character as a digit, and of a text of digits that follow `v`.
abbrev pub digit_value : ℕ → ℕ
digit_value c = if ltb c 58 then c - 48 else if ltb c 97 then c - 55 else c - 87

abbrev pub value : (base v : ℕ) → List ℕ → ℕ
value base v [] = v
value base v (c ∷ cs) = value base (v * base + digit_value c) cs

digit_value_lem : (small : Bool) (n : ℕ) → n < 36 → digit_value (digit small n) ≡ n
unfolding digit
digit_value_lem small n h = ground arith

pub half_below : (num base k : ℕ) → 2 ≤ base → num < 2 * k → num / base < k
half_below num base k lo h =
    (div-lt_iff_lt-mul (omega arith)).1 (omega (arith, mul-le-mul_left k lo))

last_digit :
    (small : Bool) (num base : ℕ)
    → 2 ≤ base
    → base ≤ 36
    → num / base * base + digit_value (digit small (num % base)) ≡ num
last_digit small num base lo hi =
    let low : num % base < base = mod-lt num (omega arith) in
    let e = digit_value_lem small (num % base) (omega arith) in rw e (div-add-mod' num base)

pub more_digits :
    (fuel : ℕ) (small : Bool) (num base : ℕ) (tmp : List ℕ)
    → (num == 0) ≡ false
    → digits_loop (suc fuel) small num base tmp
      ≡ digits_loop fuel small (num / base) base (digit small (num % base) ∷ tmp)
unfolding digits_loop
more_digits fuel small num base tmp more = rw more

digits_loop_lem :
    (fuel : ℕ) (small : Bool) (num base : ℕ) (tmp : List ℕ)
    → 2 ≤ base
    → base ≤ 36
    → num < 2 ^ fuel
    → (out : List ℕ) × (digits_loop (suc fuel) small num base tmp ≡ some out)
      × (value base 0 out ≡ value base num tmp)
digits_loop_lem zero small num base tmp lo hi h =
    (tmp, unfold digits_loop in ground arith, ap (λ v. value base v tmp) (omega arith))
digits_loop_lem (suc fuel) small num base tmp lo hi h = elim (Bool-cases (num == 0)) [
  | inl none_left ↦
      (tmp, unfold digits_loop in rw none_left, ap (λ v. value base v tmp) (ground arith))
  | inr more ↦
      let (out, runs, e) =
        digits_loop_lem fuel small (num / base) base (digit small (num % base) ∷ tmp) lo hi
          (half_below num base (2 ^ fuel) lo (omega (arith, pow-suc 2 fuel))) in
      (
        out,
        more_digits (suc fuel) small num base tmp more ∙ runs,
        e ∙ ap (λ v. value base v tmp) (last_digit small num base lo hi),
      )
]

pub digits_more :
    (small : Bool) (num base : ℕ)
    → (num == 0) ≡ false
    → digits small num base ≡ digits_loop 65 small num base []
unfolding digits
digits_more small num base more = rw more

pub digits_lem :
    (small : Bool) (num base : ℕ)
    → 2 ≤ base
    → base ≤ 36
    → num < 2 ^ 64
    → (out : List ℕ) × (digits small num base ≡ some out) × (value base 0 out ≡ num)
digits_lem small num base lo hi h = elim (Bool-cases (num == 0)) [
  | inl none_left ↦
      (48 ∷ [], unfold digits in rw none_left, sym ((==_iff num 0).0 none_left ∙ (omega arith)))
  | inr more ↦
      let (out, runs, e) = digits_loop_lem 64 small num base [] lo hi h in
      (out, digits_more small num base more ∙ runs, e)
]

-- No sign, no prefix, no padding.
abbrev pub plain : Bool → NumberType
plain small = record {
  zeropad = false;
  sign = false;
  plus = false;
  space = false;
  left = false;
  special = false;
  small = small;
}

pad_none : (z : ℤ) (c : ℕ) → z ≤ℤ pos 0 → ((pad z c).0 ≡ []) × ((pad z c).1 ≤ℤ pos 0)
unfolding pad
pad_none (pos zero) c h = (refl, omega arith)
pad_none (pos (suc n)) c h = absurd (omega arith)
pad_none (negsuc n) c h = (refl, omega arith)

no_room : (n : ℕ) → negsuc 0 -ℤ pos 0 -ℤ pos n ≤ℤ pos 0
no_room n = ground arith

no_zeros : (n : ℕ) → pos n -ℤ pos n ≡ pos 0
no_zeros n = ground arith

short : (n : ℕ) → ltb_ℤ (negsuc 0) (pos n) ≡ true
short n = ground arith

layout-plain :
    (small : Bool) (base : ℕ) (tmp : List ℕ)
    → layout (plain small) base 0 (negsuc 0) (negsuc 0) tmp ≡ tmp
layout-plain small base tmp =
    let n = length tmp in
    let z = negsuc 0 -ℤ pos 0 -ℤ pos n in
    let a = pad_none z 32 (no_room n) in
    let b = pad_none (pad z 32).1 32 a.1 in
    let c = pad_none (pad (pad z 32).1 32).1 32 b.1 in
    unfold layout prefix prefix_width in rw (short n, a.0, b.0, c.0, no_zeros n) (append-nil tmp)

-- With no sign, prefix, width or precision asked for, `number` writes, in every base from 2 to 36
-- and with letters of both kinds, digits that stand for the number.
pub number-value :
    (small : Bool) (num base : ℕ)
    → 2 ≤ base
    → base ≤ 36
    → num < 2 ^ 64
    → (text : List ℕ) × (number num base (negsuc 0) (negsuc 0) (plain small) ≡ some text)
      × (value base 0 text ≡ num)
number-value small num base lo hi h =
    let (out, runs, e) = digits_lem small num base lo hi h in
    let fits : (ltb base 2 || ltb 36 base) ≡ false = ground arith in
    (out, unfold number sign_of in rw (fits, runs, layout-plain small base out), e)
