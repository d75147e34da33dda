-- ===== src/Printk/Format/Pad.antt =====
-- The padding and the cut of the texts that `myprintf` puts, and that `number` puts every number.
use arm64os.Common.{ℕ, zero, suc, ◌-◌, ◌≤◌, ◌≡◌, refl, arith, ap, List, [], ◌∷◌, replicate, length}
use arm64os.Common.Int.{ℤ, pos, negsuc, pos_part}
use arm64os.Printk.Format.{fill_below, fill_above, first_chars}

same_spaces : (a b : ℕ) → a ≡ b → replicate {A = ℕ} a 32 ≡ replicate b 32
same_spaces a b e = ap (λ (k : ℕ). replicate {A = ℕ} k 32) e

no_spaces : (a : ℕ) → a ≡ 0 → replicate {A = ℕ} a 32 ≡ []
no_spaces a e = ap (λ (k : ℕ). replicate {A = ℕ} k 32) e

pub below_once : (z : ℤ) → (fill_below z).0 ≡ replicate (pos_part z - 1) 32
unfolding fill_below
below_once (pos n) = same_spaces _ _ (ground arith)
below_once (negsuc n) = no_spaces _ (ground arith)

pub below_twice : (z : ℤ) → (fill_below (fill_below z).1).0 ≡ []
unfolding fill_below
below_twice (pos n) = no_spaces _ (ground arith)
below_twice (negsuc n) = no_spaces _ (ground arith)

pub above_once : (len : ℕ) (z : ℤ) → (fill_above len z).0 ≡ replicate (pos_part z - len) 32
unfolding fill_above
above_once len (pos n) = same_spaces _ _ (ground arith)
above_once len (negsuc n) = same_spaces _ _ (ground arith)

pub above_twice : (len : ℕ) (z : ℤ) → (fill_above len (fill_above len z).1).0 ≡ []
unfolding fill_above
above_twice len (pos n) = no_spaces _ (ground arith)
above_twice len (negsuc n) = no_spaces _ (ground arith)

pub first_chars_all : (n : ℕ) (cs : List ℕ) → length cs ≤ n → first_chars n cs ≡ cs
unfolding first_chars
first_chars_all zero [] h = refl
first_chars_all (suc n) [] h = refl
first_chars_all zero (c ∷ cs) h = absurd (omega (arith, h))
first_chars_all (suc n) (c ∷ cs) h = ap (λ t. c ∷ t) (first_chars_all n cs (omega (arith, h)))

pub length-first_chars : (n : ℕ) (cs : List ℕ) → n ≤ length cs → length (first_chars n cs) ≡ n
unfolding first_chars
length-first_chars zero cs h = refl
length-first_chars (suc n) [] h = absurd (omega (arith, h))
length-first_chars (suc n) (c ∷ cs) h = ap suc (length-first_chars n cs (omega (arith, h)))
