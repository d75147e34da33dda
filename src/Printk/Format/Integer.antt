-- ===== src/Printk/Format/Integer.antt =====
-- lib/printk.c: the word that `myprintf` reads an argument as stands for the integer that is meant.
use arm64os.Common.{
  ℕ, zero, suc, ◌%◌, ◌^◌, ◌<◌, ◌≤◌, ◌≡◌, refl, arith, ap, ◌∙◌, Bool, true, false, inl, inr,
  Bool-cases, ltb, leb, if◌then◌else◌, Option, none, some, List, [], ◌∷◌,
}
use arm64os.Common.Int.{pos, pos_part}
use arm64os.Printk.{NumberType, number}
use arm64os.Printk.Digits.{value}
use arm64os.Printk.Scanner.{Qualifier, no_qualifier, short_arg, long_arg, long_long_arg, no_flags}
use arm64os.Printk.Format.{num_of, first_chars, is_unset}
use arm64os.Printk.Format.Scan.{
  Flag, minus, plus_sign, blank, hash, zero_sign, with_flags, Spec, width_of, precision_of,
}
use arm64os.Printk.Format.Number.{word_of, IsInteger, number_text}
use arm64os.Printk.Format.Number.Shown.{number-number_text}
use arm64os.Printk.Format.Render.{
  Kind, octal, hex_small, hex, signed, unsigned, kind_base, kind_flags, is_signed, flags_of,
  pointer_flags, pointer_width, precision_value, bits_of, integer_of, front, show, pointer, integer,
}

pub first_chars-front : (n : ℕ) (cs : List ℕ) → first_chars n cs ≡ front n cs
unfolding first_chars
first_chars-front zero cs = refl
first_chars-front (suc n) [] = refl
first_chars-front (suc n) (c ∷ cs) = ap (λ t. c ∷ t) (first_chars-front n cs)

pub pos-width : (w : List ℕ) → pos_part (width_of w) ≡ value 10 0 w
pos-width [] = refl
pos-width (c ∷ cs) = refl

pos-precision : (p : Option (List ℕ)) → pos_part (precision_of p) ≡ precision_value p
pos-precision none = refl
pos-precision (some ds) = refl

with_flags-sign : (fs : List Flag) (t : NumberType) → (with_flags fs t).sign ≡ t.sign
with_flags-sign [] t = refl
with_flags-sign (minus ∷ fs) t = with_flags-sign fs (record t { left = true })
with_flags-sign (plus_sign ∷ fs) t = with_flags-sign fs (record t { plus = true })
with_flags-sign (blank ∷ fs) t = with_flags-sign fs (record t { space = true })
with_flags-sign (hash ∷ fs) t = with_flags-sign fs (record t { special = true })
with_flags-sign (zero_sign ∷ fs) t = with_flags-sign fs (record t { zeropad = true })

kind-sign : (k : Kind) (d : Spec) → (kind_flags k (flags_of d)).sign ≡ is_signed k
kind-sign octal d = with_flags-sign d.marks no_flags
kind-sign hex_small d = with_flags-sign d.marks no_flags
kind-sign hex d = with_flags-sign d.marks no_flags
kind-sign signed d = refl
kind-sign unsigned d = with_flags-sign d.marks no_flags

base_bounds : (k : Kind) → (2 ≤ kind_base k) × (kind_base k ≤ 36)
base_bounds octal = (omega arith, omega arith)
base_bounds hex_small = (omega arith, omega arith)
base_bounds hex = (omega arith, omega arith)
base_bounds signed = (omega arith, omega arith)
base_bounds unsigned = (omega arith, omega arith)

num_of-word_of :
    (q : Qualifier) (sign : Bool) (n : ℕ)
    → n < 2 ^ 64
    → num_of q sign n ≡ word_of (integer_of sign (bits_of q) n)
unfolding num_of
num_of-word_of no_qualifier false n h = refl
num_of-word_of no_qualifier true n h = elim (Bool-cases (ltb (n % 2 ^ 32) (2 ^ 31))) [
  | inl low ↦ let l : leb (2 ^ 31) (n % 2 ^ 32) ≡ false = ground (arith, low) in rw (l, low)
  | inr high ↦
      let l : leb (2 ^ 31) (n % 2 ^ 32) ≡ true = ground (arith, high) in rw (l, high) (omega arith)
]
num_of-word_of short_arg false n h = refl
num_of-word_of short_arg true n h = elim (Bool-cases (ltb (n % 2 ^ 16) (2 ^ 15))) [
  | inl low ↦ let l : leb (2 ^ 15) (n % 2 ^ 16) ≡ false = ground (arith, low) in rw (l, low)
  | inr high ↦
      let l : leb (2 ^ 15) (n % 2 ^ 16) ≡ true = ground (arith, high) in rw (l, high) (omega arith)
]
num_of-word_of long_arg false n h = omega (arith, h)
num_of-word_of long_arg true n h = elim (Bool-cases (ltb (n % 2 ^ 64) (2 ^ 63))) [
  | inl low ↦ rw low (omega (arith, h))
  | inr high ↦ rw high (omega (arith, h))
]
num_of-word_of long_long_arg false n h = omega (arith, h)
num_of-word_of long_long_arg true n h = elim (Bool-cases (ltb (n % 2 ^ 64) (2 ^ 63))) [
  | inl low ↦ rw low (omega (arith, h))
  | inr high ↦ rw high (omega (arith, h))
]

integer_of-IsInteger :
    (q : Qualifier) (sign : Bool) (n : ℕ)
    → n < 2 ^ 64
    → IsInteger sign (integer_of sign (bits_of q) n)
integer_of-IsInteger no_qualifier false n h = (_, refl, omega arith)
integer_of-IsInteger no_qualifier true n h = elim (Bool-cases (ltb (n % 2 ^ 32) (2 ^ 31))) [
  | inl low ↦ rw low (ground (arith, low))
  | inr high ↦ rw high (ground (arith, high))
]
integer_of-IsInteger short_arg false n h = (_, refl, omega arith)
integer_of-IsInteger short_arg true n h = elim (Bool-cases (ltb (n % 2 ^ 16) (2 ^ 15))) [
  | inl low ↦ rw low (ground (arith, low))
  | inr high ↦ rw high (ground (arith, high))
]
integer_of-IsInteger long_arg false n h = (_, refl, omega arith)
integer_of-IsInteger long_arg true n h = elim (Bool-cases (ltb (n % 2 ^ 64) (2 ^ 63))) [
  | inl low ↦ rw low (ground (arith, low))
  | inr high ↦ rw high (ground (arith, high))
]
integer_of-IsInteger long_long_arg false n h = (_, refl, omega arith)
integer_of-IsInteger long_long_arg true n h = elim (Bool-cases (ltb (n % 2 ^ 64) (2 ^ 63))) [
  | inl low ↦ rw low (ground (arith, low))
  | inr high ↦ rw high (ground (arith, high))
]

pub number-show :
    (d : Spec) (k : Kind) (n : ℕ)
    → n < 2 ^ 64
    → number
        (num_of d.qualifier (kind_flags k (flags_of d)).sign n)
        (kind_base k)
        (width_of d.width)
        (precision_of d.precision)
        (kind_flags k (flags_of d))
      ≡ some (show d (integer k n))
number-show d k n h =
    let t = kind_flags k (flags_of d) in
    let z = integer_of (is_signed k) (bits_of d.qualifier) n in
    let (lo, hi) = base_bounds k in
    ap
      (λ s.
        number (num_of d.qualifier s n) (kind_base k) (width_of d.width) (precision_of d.precision)
          t)
      (kind-sign k d)
    ∙ ap (λ w. number w (kind_base k) (width_of d.width) (precision_of d.precision) t)
        (num_of-word_of d.qualifier (is_signed k) n h)
    ∙ number-number_text (is_signed k) t (kind_base k) (width_of d.width) (precision_of d.precision)
        z lo hi (kind-sign k d) (integer_of-IsInteger d.qualifier (is_signed k) n h)
    ∙ ap
        (λ w.
          some
            (number_text (is_signed k) t (kind_base k) w (pos_part (precision_of d.precision)) z))
        (pos-width d.width)
    ∙ ap (λ p. some (number_text (is_signed k) t (kind_base k) (value 10 0 d.width) p z))
        (pos-precision d.precision)

pub number-show_pointer :
    (d : Spec) (a : ℕ)
    → a < 2 ^ 64
    → number a 16
        (if is_unset (width_of d.width) then pos 16 else width_of d.width)
        (precision_of d.precision)
        (if is_unset (width_of d.width) then record (flags_of d) { zeropad = true } else flags_of d)
      ≡ some (show d (pointer a))
number-show_pointer d a h =
    by_width d.width refl
    ∙ ap (λ p. some (number_text false (pointer_flags d) 16 (pointer_width d) p (pos a)))
        (pos-precision d.precision)
  where
    by_width :
        (w : List ℕ)
        → d.width ≡ w
        → number a 16
            (if is_unset (width_of d.width) then pos 16 else width_of d.width)
            (precision_of d.precision)
            (if is_unset (width_of d.width)
              then record (flags_of d) { zeropad = true }
              else flags_of d)
          ≡ some (
              number_text false
                (pointer_flags d)
                16
                (pointer_width d)
                (pos_part (precision_of d.precision))
                (pos a))
    by_width [] e = rw e (
        number-number_text false (record (flags_of d) { zeropad = true }) 16 (pos 16)
          (precision_of d.precision) (pos a) (omega arith) (omega arith)
          (with_flags-sign d.marks no_flags) (a, refl, h))
    by_width (c ∷ cs) e = rw e (
        number-number_text false (flags_of d) 16 (pos (value 10 0 (c ∷ cs)))
          (precision_of d.precision) (pos a) (omega arith) (omega arith)
          (with_flags-sign d.marks no_flags) (a, refl, h))
