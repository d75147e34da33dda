-- ===== src/Printk/Scanner.antt =====
-- lib/printk.c: the arguments of `myprintf`, and how it reads the parts of a directive.
use arm64os.Common.{
  ℕ, ◌+◌, ◌-◌, ◌*◌, Bool, true, false, ◌&&◌, leb, ◌==◌, if◌then◌else◌, Option, none, some, List, [],
  ◌∷◌, ◌++◌, Result, ok, fault, ◌>>=◌,
}
use arm64os.Common.Int.{ℤ, pos, negsuc, ltb_ℤ, pos_part, neg_part, to_int}
use arm64os.Printk.{NumberType}

-- What is passed for a format: a register, a text or NULL, an address.
pub data Arg : Type 0 where
  word : ℕ → Arg
  text : Option (List ℕ) → Arg
  address : ℕ → Arg

-- The state of `myprintf`: the text before `pos`, the rest of `arg`, `base` if it was ever set, and what
-- `%n` stored, the last first.
pub record Output : Type 0 where
  pub written : List ℕ
  pub arg : List Arg
  pub base : Option ℕ
  pub stores : List (ℕ × ℕ)

abbrev pub emit : List ℕ → Output → Output
emit cs s = record s { written = s.written ++ cs }

-- `va_arg`. An argument of another kind, or none at all, is a fault.
unfoldable pub arg_word : Output → Result (ℕ × Output)
arg_word s = elim s.arg [
  | [] ↦ fault
  | a ∷ rest ↦ elim a [
    | word n ↦ ok (n, record s { arg = rest })
    | text t ↦ fault
    | address a ↦ fault
  ]
]

unfoldable pub arg_text : Output → Result (Option (List ℕ) × Output)
arg_text s = elim s.arg [
  | [] ↦ fault
  | a ∷ rest ↦ elim a [
    | word n ↦ fault
    | text t ↦ ok (t, record s { arg = rest })
    | address a ↦ fault
  ]
]

unfoldable pub arg_address : Output → Result (ℕ × Output)
arg_address s = elim s.arg [
  | [] ↦ fault
  | a ∷ rest ↦ elim a [
    | word n ↦ fault
    | text t ↦ fault
    | address a ↦ ok (a, record s { arg = rest })
  ]
]

abbrev pub is_digit : ℕ → Bool
is_digit c = leb 48 c && leb c 57

-- `scan_number` with `tmp`: the number, and the rest of the format.
unfoldable pub scan_number : (tmp : ℕ) → List ℕ → ℕ × List ℕ
scan_number tmp [] = (tmp, [])
scan_number tmp (c ∷ fmt) =
    let rest = scan_number (tmp * 10 + (c - 48)) fmt in if is_digit c then rest else (tmp, c ∷ fmt)

abbrev pub no_flags : NumberType
no_flags = record {
  zeropad = false;
  sign = false;
  plus = false;
  space = false;
  left = false;
  special = false;
  small = false;
}

-- The flag that a character sets.
unfoldable pub set_flag : ℕ → NumberType → Option NumberType
set_flag c t =
    if c == 45
    then some (record t { left = true })
    else if c == 43
    then some (record t { plus = true })
    else if c == 32
    then some (record t { space = true })
    else if c == 35
    then some (record t { special = true })
    else if c == 48
    then some (record t { zeropad = true })
    else none

-- The code at `repeat`.
unfoldable pub scan_flags : List ℕ → NumberType → NumberType × List ℕ
unfolding set_flag
scan_flags [] t = (t, [])
scan_flags (c ∷ fmt) t = elim (set_flag c t) [ none ↦ (t, c ∷ fmt) | some t' ↦ scan_flags fmt t' ]

-- The width. The `*` itself is not skipped.
unfoldable pub scan_width : List ℕ → NumberType → Output → Result (ℤ × NumberType × List ℕ × Output)
unfolding scan_number arg_word
scan_width [] t s = ok (negsuc 0, t, [], s)
scan_width (c ∷ fmt) t s =
    let (n, rest) = scan_number 0 (c ∷ fmt) in
    if is_digit c
    then ok (pos n, t, rest, s)
    else if c == 42
    then (do
      (n, s1) ← arg_word s
      (if ltb_ℤ (to_int n) (pos 0)
          then ok (pos (neg_part (to_int n)), record t { left = true }, c ∷ fmt, s1)
          else ok (to_int n, t, c ∷ fmt, s1)))
    else ok (negsuc 0, t, c ∷ fmt, s)

-- The precision behind the `.`. A `*` is not skipped here either.
unfoldable pub scan_digits : List ℕ → Output → Result (ℤ × List ℕ × Output)
unfolding scan_number arg_word
scan_digits [] s = ok (pos 0, [], s)
scan_digits (c ∷ fmt) s =
    let (n, rest) = scan_number 0 (c ∷ fmt) in
    if is_digit c
    then ok (pos n, rest, s)
    else if c == 42
    then (do (n, s1) ← arg_word s; ok (pos (pos_part (to_int n)), c ∷ fmt, s1))
    else ok (pos 0, c ∷ fmt, s)

unfoldable pub scan_precision : List ℕ → Output → Result (ℤ × List ℕ × Output)
unfolding scan_digits
scan_precision [] s = ok (negsuc 0, [], s)
scan_precision (c ∷ fmt) s = if c == 46 then scan_digits fmt s else ok (negsuc 0, c ∷ fmt, s)

pub data Qualifier : Type 0 where
  no_qualifier short_arg long_arg long_long_arg : Qualifier

unfoldable pub scan_long : List ℕ → Qualifier × List ℕ
scan_long [] = (long_arg, [])
scan_long (c ∷ fmt) = if c == 108 then (long_long_arg, fmt) else (long_arg, c ∷ fmt)

unfoldable pub scan_qualifier : List ℕ → Qualifier × List ℕ
unfolding scan_long
scan_qualifier [] = (no_qualifier, [])
scan_qualifier (c ∷ fmt) =
    if c == 104
    then (short_arg, fmt)
    else if c == 76
    then (long_long_arg, fmt)
    else if c == 108
    then scan_long fmt
    else (no_qualifier, c ∷ fmt)
