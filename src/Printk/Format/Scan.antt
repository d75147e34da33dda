-- ===== src/Printk/Format/Scan.antt =====
-- How `myprintf` reads a directive: flags, width, precision, qualifier and conversion.
use arm64os.Common.{
  ℕ, ◌+◌, ◌-◌, ◌*◌, ◌≤◌, ◌≡◌, ◌⊎◌, inl, inr, refl, arith, ap, sym, ◌∙◌, true, false, ◌==◌, Option,
  none, some, List, [], ◌∷◌, ◌++◌, map, ok,
}
use arm64os.Common.Int.{ℤ, pos, negsuc}
use arm64os.Printk.{NumberType}
use arm64os.Printk.Digits.{value}
use arm64os.Printk.Scanner.{
  Output, Qualifier, no_qualifier, short_arg, long_arg, long_long_arg, is_digit, scan_number,
  scan_flags, set_flag, no_flags, scan_width, scan_digits, scan_precision, scan_long,
  scan_qualifier,
}
use arm64os.Printk.Format.{Directive, directive, convert}

pub data Flag : Type 0 where
  minus plus_sign blank hash zero_sign : Flag

abbrev pub flag_char : Flag → ℕ
flag_char minus = 45
flag_char plus_sign = 43
flag_char blank = 32
flag_char hash = 35
flag_char zero_sign = 48

abbrev pub with_flags : List Flag → NumberType → NumberType
with_flags [] t = t
with_flags (minus ∷ fs) t = with_flags fs (record t { left = true })
with_flags (plus_sign ∷ fs) t = with_flags fs (record t { plus = true })
with_flags (blank ∷ fs) t = with_flags fs (record t { space = true })
with_flags (hash ∷ fs) t = with_flags fs (record t { special = true })
with_flags (zero_sign ∷ fs) t = with_flags fs (record t { zeropad = true })

abbrev pub AllDigits : List ℕ → Type 0
AllDigits [] = Unit
AllDigits (c ∷ cs) = (48 ≤ c) × (c ≤ 57) × AllDigits cs

abbrev pub qualifier_text : Qualifier → List ℕ
qualifier_text no_qualifier = []
qualifier_text short_arg = 104 ∷ []
qualifier_text long_arg = 108 ∷ []
qualifier_text long_long_arg = 108 ∷ 108 ∷ []

abbrev pub width_of : List ℕ → ℤ
width_of [] = negsuc 0
width_of (c ∷ cs) = pos (value 10 0 (c ∷ cs))

abbrev pub precision_text : Option (List ℕ) → List ℕ
precision_text none = []
precision_text (some ds) = 46 ∷ ds

abbrev pub precision_of : Option (List ℕ) → ℤ
precision_of none = negsuc 0
precision_of (some ds) = pos (value 10 0 ds)

-- A letter that is no qualifier.
abbrev pub IsConversion : ℕ → Type 0
IsConversion c = (58 ≤ c) × ((c == 104) ≡ false) × ((c == 76) ≡ false) × ((c == 108) ≡ false)

abbrev Starts : (ℕ → Type 0) → List ℕ → Type 0
Starts P xs = (c : ℕ) × (cs : List ℕ) × (xs ≡ c ∷ cs) × P c

flags_lem :
    (fs : List Flag) (t : NumberType) (c : ℕ) (cs : List ℕ)
    → set_flag c (with_flags fs t) ≡ none
    → scan_flags (map flag_char fs ++ (c ∷ cs)) t ≡ (with_flags fs t, c ∷ cs)
unfolding scan_flags set_flag
flags_lem [] t c cs h = rw (scan_flags, h)
flags_lem (minus ∷ fs) t c cs h = flags_lem fs (record t { left = true }) c cs h
flags_lem (plus_sign ∷ fs) t c cs h = flags_lem fs (record t { plus = true }) c cs h
flags_lem (blank ∷ fs) t c cs h = flags_lem fs (record t { space = true }) c cs h
flags_lem (hash ∷ fs) t c cs h = flags_lem fs (record t { special = true }) c cs h
flags_lem (zero_sign ∷ fs) t c cs h = flags_lem fs (record t { zeropad = true }) c cs h

no_flag : (c : ℕ) (t : NumberType) → 46 ≤ c → ((c == 48) ≡ false) → set_flag c t ≡ none
unfolding set_flag
no_flag c t h z =
    let a : (c == 45) ≡ false = ground arith in
    let b : (c == 43) ≡ false = ground arith in
    let d : (c == 32) ≡ false = ground arith in
    let e : (c == 35) ≡ false = ground arith in rw (a, b, d, e, z)

digit_step : (tmp c : ℕ) → 48 ≤ c → c ≤ 57 → tmp * 10 + (c - 48) ≡ value 10 tmp (c ∷ [])
digit_step tmp c lo hi = ground arith

digits_scan :
    (tmp : ℕ) (ds : List ℕ) (c : ℕ) (cs : List ℕ)
    → AllDigits ds
    → is_digit c ≡ false
    → scan_number tmp (ds ++ (c ∷ cs)) ≡ (value 10 tmp ds, c ∷ cs)
unfolding scan_number
digits_scan tmp [] c cs h stop = rw stop
digits_scan tmp (d ∷ ds) c cs (lo, hi, h) stop =
    let is : is_digit d ≡ true = ground arith in
    rw (is, digit_step tmp d lo hi) (digits_scan (value 10 tmp (d ∷ [])) ds c cs h stop)

first_digit :
    (d : ℕ) (ds : List ℕ) (c : ℕ) (cs : List ℕ)
    → AllDigits (d ∷ ds)
    → is_digit c ≡ false
    → scan_number (0 * 10 + (d - 48)) (ds ++ (c ∷ cs)) ≡ (value 10 0 (d ∷ ds), c ∷ cs)
first_digit d ds c cs (lo, hi, h) stop =
    ap (λ tmp. scan_number tmp (ds ++ (c ∷ cs))) (digit_step 0 d lo hi)
    ∙ digits_scan (value 10 0 (d ∷ [])) ds c cs h stop

width_lem :
    (ds : List ℕ) (t : NumberType) (s : Output) (c : ℕ) (cs : List ℕ)
    → AllDigits ds
    → is_digit c ≡ false
    → (c == 42) ≡ false
    → scan_width (ds ++ (c ∷ cs)) t s ≡ ok (width_of ds, t, c ∷ cs, s)
unfolding scan_width
width_lem [] t s c cs h stop star = rw (stop, star)
width_lem (d ∷ ds) t s c cs (lo, hi, h) stop star =
    let is : is_digit d ≡ true = ground arith in rw (is, first_digit d ds c cs (lo, hi, h) stop)

precision_lem :
    (p : Option (List ℕ)) (s : Output) (c : ℕ) (cs : List ℕ)
    → AllDigits (elim p [ none ↦ [] | some ds ↦ ds ])
    → 58 ≤ c
    → scan_precision (precision_text p ++ (c ∷ cs)) s ≡ ok (precision_of p, c ∷ cs, s)
unfolding scan_precision scan_digits
precision_lem none s c cs h letter = let dot : (c == 46) ≡ false = ground arith in rw dot
precision_lem (some []) s c cs h letter =
    let stop : is_digit c ≡ false = ground arith in
    let star : (c == 42) ≡ false = ground arith in rw (stop, star)
precision_lem (some (d ∷ ds)) s c cs (lo, hi, h) letter =
    let is : is_digit d ≡ true = ground arith in
    let stop : is_digit c ≡ false = ground arith in rw (is, first_digit d ds c cs (lo, hi, h) stop)

qualifier_lem :
    (q : Qualifier) (c : ℕ) (cs : List ℕ)
    → IsConversion c
    → scan_qualifier (qualifier_text q ++ (c ∷ cs)) ≡ (q, c ∷ cs)
unfolding scan_qualifier scan_long
qualifier_lem no_qualifier c cs (letter, h, l', l) = rw (h, l', l)
qualifier_lem short_arg c cs h = refl
qualifier_lem long_arg c cs (letter, h, l', l) = rw l
qualifier_lem long_long_arg c cs h = refl

-- A directive as it is written, up to its conversion.
pub record Spec : Type 0 where
  pub marks : List Flag
  pub width : List ℕ
  pub precision : Option (List ℕ)
  pub qualifier : Qualifier

-- The width and the precision are made of digits, and no 0 leads the width, where it would be a flag.
pub record IsSpec (d : Spec) : Type 0 where
  pub width : AllDigits d.width
  pub first : (c : ℕ) (cs : List ℕ) → d.width ≡ c ∷ cs → (c == 48) ≡ false
  pub precision : AllDigits (elim d.precision [ none ↦ [] | some ds ↦ ds ])

abbrev pub spec_text : Spec → (conversion : List ℕ) → List ℕ
spec_text d conversion =
    map flag_char d.marks
    ++ (d.width ++ (precision_text d.precision ++ (qualifier_text d.qualifier ++ conversion)))

abbrev pub read_of : Spec → Directive
read_of d = record {
  flags = with_flags d.marks no_flags;
  field_width = width_of d.width;
  precision = precision_of d.precision;
  qualifier = d.qualifier;
}

letter_head :
    (q : Qualifier) (c : ℕ) (cs : List ℕ)
    → IsConversion c
    → Starts (λ a. 58 ≤ a) (qualifier_text q ++ (c ∷ cs))
letter_head no_qualifier c cs h = (c, cs, refl, h.0)
letter_head short_arg c cs h = (104, c ∷ cs, refl, omega arith)
letter_head long_arg c cs h = (108, c ∷ cs, refl, omega arith)
letter_head long_long_arg c cs h = (108, 108 ∷ c ∷ cs, refl, omega arith)

dot_head :
    (p : Option (List ℕ)) (c : ℕ) (cs : List ℕ)
    → 58 ≤ c
    → Starts (λ a. (a ≡ 46) ⊎ (58 ≤ a)) (precision_text p ++ (c ∷ cs))
dot_head none c cs h = (c, cs, refl, inr h)
dot_head (some ds) c cs h = (46, ds ++ (c ∷ cs), refl, inl refl)

digit_head :
    (w : List ℕ) (c : ℕ) (cs : List ℕ)
    → AllDigits w
    → ((d : ℕ) (ds : List ℕ) → w ≡ d ∷ ds → (d == 48) ≡ false)
    → (c ≡ 46) ⊎ (58 ≤ c)
    → Starts (λ a. (46 ≤ a) × ((a == 48) ≡ false)) (w ++ (c ∷ cs))
digit_head [] c cs h z (inl dot) = (c, cs, refl, (omega (arith, dot), ground (arith, dot)))
digit_head [] c cs h z (inr letter) = (c, cs, refl, (omega (arith, letter), ground (arith, letter)))
digit_head (d ∷ ds) c cs (lo, hi, h) z e =
    (d, ds ++ (c ∷ cs), refl, (omega (arith, lo), z d ds refl))

-- `myprintf` reads a directive as it is written.
pub directive-spec_text :
    (d : Spec) (c : ℕ) (fmt : List ℕ) (s : Output)
    → IsSpec d
    → IsConversion c
    → directive (spec_text d (c ∷ fmt)) s ≡ convert (c ∷ fmt) (read_of d) s
unfolding directive
directive-spec_text d c fmt s h conv =
    let q = qualifier_text d.qualifier ++ (c ∷ fmt) in
    let p = precision_text d.precision ++ q in
    let (a, rest, a_head, a_letter) = letter_head d.qualifier c fmt conv in
    let (b, bs, b_head, b_dot) = dot_head d.precision a rest a_letter in
    let p_head : p ≡ b ∷ bs = ap (λ z. precision_text d.precision ++ z) a_head ∙ b_head in
    let (e, es, e_head, (e_lo, e_zero)) = digit_head d.width b bs h.width h.first b_dot in
    let w_head : d.width ++ p ≡ e ∷ es = ap (λ z. d.width ++ z) p_head ∙ e_head in
    let t = with_flags d.marks no_flags in
    let flags : scan_flags (spec_text d (c ∷ fmt)) no_flags ≡ (t, d.width ++ p) =
      ap (λ z. scan_flags (map flag_char d.marks ++ z) no_flags) w_head
      ∙ flags_lem d.marks no_flags e es (no_flag e t e_lo e_zero)
      ∙ ap (λ z. (t, z)) (sym w_head) in
    let width : scan_width (d.width ++ p) t s ≡ ok (width_of d.width, t, p, s) =
      ap (λ z. scan_width (d.width ++ z) t s) p_head
      ∙ width_lem d.width t s b bs h.width (ground (arith, b_dot)) (ground (arith, b_dot))
      ∙ ap (λ z. ok (width_of d.width, t, z, s)) (sym p_head) in
    let precision : scan_precision p s ≡ ok (precision_of d.precision, q, s) =
      ap (λ z. scan_precision (precision_text d.precision ++ z) s) a_head
      ∙ precision_lem d.precision s a rest h.precision a_letter
      ∙ ap (λ z. ok (precision_of d.precision, z, s)) (sym a_head) in
    rw (flags, width, precision, qualifier_lem d.qualifier c fmt conv)
