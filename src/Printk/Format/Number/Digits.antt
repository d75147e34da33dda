-- ===== src/Printk/Format/Number/Digits.antt =====
-- The digits that `number` (lib/printk.c) makes are the numerals.
use native.Mathlib.Nat.{pow-suc, mod-lt, div-eq_of_lt, le-div_iff_mul-le, mod-eq_of_lt}
use arm64os.Common.{
  ℕ, zero, suc, ◌/◌, ◌%◌, ◌^◌, ◌≤◌, ◌<◌, ◌≡◌, arith, ap, sym, ◌∙◌, Bool, true, false, ltb, ◌==◌,
  ==_iff, some, List, [], ◌∷◌, ◌++◌, append_assoc, append-nil, Bool-cases, inl, inr,
}
use arm64os.Printk.{digit, digits, digits_loop}
use arm64os.Printk.Digits.{half_below, more_digits, digits_more}
use arm64os.Printk.Format.Number.{character_of, numerals}

digit_character : (small : Bool) (n : ℕ) → n < 36 → digit small n ≡ character_of small n
unfolding digit
digit_character true n h = ground arith
digit_character false n h = ground arith

no_quotient : (n b : ℕ) → n < b → n / b ≡ 0
no_quotient n b h = div-eq_of_lt h

quotient : (n b : ℕ) → 2 ≤ b → b ≤ n → (n / b == 0) ≡ false
quotient n b lo h =
    let some_left : 1 ≤ n / b = (le-div_iff_mul-le (omega arith)).1 (omega arith) in
    ground (arith, some_left)

numerals_last :
    (fuel : ℕ) (small : Bool) (base n : ℕ)
    → ltb n base ≡ true
    → numerals (suc fuel) small base n ≡ character_of small (n % base) ∷ []
unfolding numerals
numerals_last fuel small base n h = rw h

numerals_more :
    (fuel : ℕ) (small : Bool) (base n : ℕ)
    → ltb n base ≡ false
    → numerals (suc fuel) small base n
      ≡ numerals fuel small base (n / base) ++ (character_of small (n % base) ∷ [])
unfolding numerals
numerals_more fuel small base n h = rw h

loop_stops :
    (fuel : ℕ) (small : Bool) (num base : ℕ) (tmp : List ℕ)
    → num ≡ 0
    → digits_loop (suc fuel) small num base tmp ≡ some tmp
unfolding digits_loop
loop_stops fuel small num base tmp h = rw h

digit_low :
    (small : Bool) (num base : ℕ)
    → 2 ≤ base
    → base ≤ 36
    → digit small (num % base) ≡ character_of small (num % base)
digit_low small num base lo hi =
    let low : num % base < base = mod-lt num (omega arith) in
    digit_character small (num % base) (omega arith)

numerals_loop :
    (fuel : ℕ) (small : Bool) (num base : ℕ) (tmp : List ℕ)
    → 2 ≤ base
    → base ≤ 36
    → (num == 0) ≡ false
    → num < 2 ^ fuel
    → digits_loop (suc fuel) small num base tmp ≡ some (numerals fuel small base num ++ tmp)
numerals_loop zero small num base tmp lo hi some_num h = absurd (ground (arith, h, some_num))
numerals_loop (suc fuel) small num base tmp lo hi some_num h = elim (Bool-cases (ltb num base)) [
  | inl last ↦
      more_digits (suc fuel) small num base tmp some_num
      ∙ loop_stops fuel small (num / base) base (digit small (num % base) ∷ tmp)
          (no_quotient num base (ground (arith, last)))
      ∙ rw (numerals_last fuel small base num last, digit_low small num base lo hi)
  | inr more ↦
      more_digits (suc fuel) small num base tmp some_num
      ∙ numerals_loop fuel small (num / base) base (digit small (num % base) ∷ tmp) lo hi
          (quotient num base lo (ground (arith, more)))
          (half_below num base (2 ^ fuel) lo (omega (arith, pow-suc 2 fuel, h)))
      ∙ rw (
        numerals_more fuel small base num more,
        digit_low small num base lo hi,
        append_assoc (numerals fuel small base (num / base)) (character_of small (num % base) ∷ [])
            tmp,
      )
]

zero_character : (small : Bool) (base : ℕ) → 2 ≤ base → character_of small (0 % base) ≡ 48
zero_character small base lo = let some_base : 0 < base = omega arith in rw (mod-eq_of_lt some_base)

pub digits-numerals :
    (small : Bool) (num base : ℕ)
    → 2 ≤ base
    → base ≤ 36
    → num < 2 ^ 64
    → digits small num base ≡ some (numerals 64 small base num)
digits-numerals small num base lo hi h = elim (Bool-cases (num == 0)) [
  | inl zero_num ↦
      unfold digits in
      rw
        (
          zero_num,
          numerals_last 63 small base num (ground (arith, zero_num)),
          (==_iff num 0).0 zero_num,
        )
        (ap (λ c. some (c ∷ [])) (sym (zero_character small base lo)))
  | inr more ↦
      digits_more small num base more
      ∙ numerals_loop 64 small num base [] lo hi more h
      ∙ ap some (append-nil (numerals 64 small base num))
]
