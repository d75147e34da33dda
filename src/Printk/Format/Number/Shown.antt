-- ===== src/Printk/Format/Number/Shown.antt =====
-- All that `number` (lib/printk.c) writes of an integer.
use arm64os.Common.{
  ℕ, zero, suc, ◌+◌, ◌-◌, ◌^◌, ◌≤◌, ◌<◌, ◌≡◌, arith, ap, sym, ◌∙◌, Bool, true, false, ◌||◌, ltb,
  leb, ◌==◌, if◌then◌else◌, some, List, [], ◌∷◌, ◌++◌, replicate, length, Bool-cases, inl, inr,
}
use arm64os.Common.Int.{ℤ, pos, negsuc, ◌-ℤ◌, pos_part}
use arm64os.Printk.{NumberType, layout, sign_of, number}
use arm64os.Printk.Format.Number.{numerals, base_text, in_room, number_text, word_of, IsInteger}
use arm64os.Printk.Format.Number.Digits.{digits-numerals}
use arm64os.Printk.Format.Number.Field.{layout_lem}

number_with :
    (t : NumberType) (num base sign rest : ℕ) (size width precision : ℤ)
    → 2 ≤ base
    → base ≤ 36
    → rest < 2 ^ 64
    → sign_of t num size ≡ (sign, rest, width)
    → number num base size precision t
      ≡ some (layout t base sign width precision (numerals 64 t.small base rest))
unfolding number
number_with t num base sign rest size width precision lo hi h e =
    let fits : (ltb base 2 || ltb 36 base) ≡ false = ground arith in
    rw (fits, e, digits-numerals t.small rest base lo hi h, e)

sub_one : (z : ℤ) → pos_part (z -ℤ pos 1) ≡ pos_part z - 1
sub_one (pos n) = ground arith
sub_one (negsuc n) = ground arith

body_length : (m : ℕ) (ds : List ℕ) → length (replicate m 48 ++ ds) ≡ m + length ds
body_length zero ds = omega arith
body_length (suc m) ds = omega (arith, body_length m ds)

module _ (t : NumberType) (base : ℕ) (size precision : ℤ) (lo : 2 ≤ base) (hi : base ≤ 36) where
  -- What `number` makes of a sign, what is left of a number, and the room the sign takes.
  abbrev shown : (sign : ℕ) → (room rest : ℕ) → List ℕ
  shown sign room rest =
      let ds = numerals 64 t.small base rest in
      let body = replicate (pos_part precision - length ds) 48 ++ ds in
      in_room t (pos_part size - room - length (base_text t base) - length body)
        (if sign == 0 then [] else sign ∷ []) (base_text t base) body

  number_shown :
      (num sign room rest : ℕ) (width : ℤ)
      → rest < 2 ^ 64
      → sign_of t num size ≡ (sign, rest, width)
      → pos_part width ≡ pos_part size - room
      → number num base size precision t ≡ some (shown sign room rest)
  number_shown num sign room rest width h e w =
      let ds = numerals 64 t.small base rest in
      number_with t num base sign rest size width precision lo hi h e
      ∙ ap some (layout_lem t base sign width precision ds)
      ∙ ap
          (λ r. some (
            in_room t (r - length (base_text t base) - (pos_part precision - length ds + length ds))
              (if sign == 0 then [] else sign ∷ []) (base_text t base)
              (replicate (pos_part precision - length ds) 48 ++ ds)))
          w
      ∙ ap
          (λ l. some (
            in_room t (pos_part size - room - length (base_text t base) - l)
              (if sign == 0 then [] else sign ∷ []) (base_text t base)
              (replicate (pos_part precision - length ds) 48 ++ ds)))
          (sym (body_length (pos_part precision - length ds) ds))

  number_unsigned :
      (n : ℕ) → t.sign ≡ false → n < 2 ^ 64 → number n base size precision t ≡ some (shown 0 0 n)
  number_unsigned n unsigned h =
      number_shown n 0 0 n size h (unfold sign_of in rw unsigned) (omega arith)

  number_negative :
      (n : ℕ)
      → t.sign ≡ true
      → n < 2 ^ 63
      → number (2 ^ 64 - 1 - n) base size precision t ≡ some (shown 45 0 (suc n))
  number_negative n signed h =
      let low : leb (2 ^ 63) (2 ^ 64 - 1 - n) ≡ true = ground arith in
      let back : 2 ^ 64 - (2 ^ 64 - 1 - n) ≡ suc n = omega (arith, h) in
      number_shown (2 ^ 64 - 1 - n) 45 0 (suc n) size (omega (arith, h))
        (unfold sign_of in rw (signed, low, back)) (omega arith)

  -- The text of a number from its sign on.
  abbrev signed_text : (sign : List ℕ) → (rest : ℕ) → List ℕ
  signed_text sign rest =
      let ds = numerals 64 t.small base rest in
      let body = replicate (pos_part precision - length ds) 48 ++ ds in
      in_room t (pos_part size - length sign - length (base_text t base) - length body) sign
        (base_text t base) body

  abbrev plus_or_space : (plus space : Bool) → List ℕ
  plus_or_space plus space = if plus then 43 ∷ [] else if space then 32 ∷ [] else []

  number_pos :
      (n : ℕ)
      → t.sign ≡ true
      → n < 2 ^ 63
      → number n base size precision t ≡ some (signed_text (plus_or_space t.plus t.space) n)
  number_pos n signed h = elim (Bool-cases t.plus) [
    | inl plus ↦
        number_shown n 43 1 n (size -ℤ pos 1) (omega (arith, h))
          (unfold sign_of in rw (signed, high, plus)) (sub_one size)
        ∙ ap (λ p. some (signed_text (plus_or_space p t.space) n)) (sym plus)
    | inr no_plus ↦ elim (Bool-cases t.space) [
      | inl space ↦
          number_shown n 32 1 n (size -ℤ pos 1) (omega (arith, h))
            (unfold sign_of in rw (signed, high, no_plus, space)) (sub_one size)
          ∙ ap (λ p. some (signed_text (plus_or_space false p) n)) (sym space)
          ∙ ap (λ p. some (signed_text (plus_or_space p t.space) n)) (sym no_plus)
      | inr no_space ↦
          number_shown n 0 0 n size (omega (arith, h))
            (unfold sign_of in rw (signed, high, no_plus, no_space)) (omega arith)
          ∙ ap (λ p. some (signed_text (plus_or_space false p) n)) (sym no_space)
          ∙ ap (λ p. some (signed_text (plus_or_space p t.space) n)) (sym no_plus)
    ]
  ]
    where
      high : leb (2 ^ 63) n ≡ false
      high = ground (arith, h)

-- `number` writes an integer the way `number_text` says.
pub number-number_text :
    (signed : Bool) (t : NumberType) (base : ℕ) (size precision : ℤ) (z : ℤ)
    → 2 ≤ base
    → base ≤ 36
    → t.sign ≡ signed
    → IsInteger signed z
    → number (word_of z) base size precision t
      ≡ some (number_text signed t base (pos_part size) (pos_part precision) z)
unfolding number_text
number-number_text false t base size precision z lo hi e (n, is, h) =
    rw is (number_unsigned t base size precision lo hi n e h)
number-number_text true t base size precision (pos n) lo hi e h =
    number_pos t base size precision lo hi n e h
number-number_text true t base size precision (negsuc n) lo hi e h =
    number_negative t base size precision lo hi n e h
