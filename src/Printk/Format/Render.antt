-- ===== src/Printk/Format/Render.antt =====
-- What the directives of a format show.
use arm64os.Common.{
  ℕ, zero, suc, ◌-◌, ◌%◌, ◌^◌, ◌<◌, ◌≡◌, Bool, true, false, ltb, ◌==◌, if◌then◌else◌, Option, none,
  some, List, [], ◌∷◌, ◌++◌, replicate, length,
}
use arm64os.Common.Int.{ℤ, pos, negsuc}
use arm64os.Printk.{NumberType}
use arm64os.Printk.Digits.{value}
use arm64os.Printk.Scanner.{
  Output, Arg, word, text, address, no_flags, Qualifier, no_qualifier, short_arg, long_arg,
  long_long_arg,
}
use arm64os.Printk.Format.Scan.{with_flags, Spec, IsSpec, spec_text}
use arm64os.Printk.Format.Number.{number_text}

pub data Kind : Type 0 where
  octal hex_small hex signed unsigned : Kind

-- What a directive is given.
pub data Value : Type 0 where
  character : ℕ → Value
  string : Option (List ℕ) → Value
  pointer : ℕ → Value
  integer : Kind → ℕ → Value

pub data Item : Type 0 where
  plain : ℕ → Item
  conversion : Spec → Value → Item

abbrev pub value_char : Value → ℕ
value_char (character n) = 99
value_char (string t) = 115
value_char (pointer a) = 112
value_char (integer octal n) = 111
value_char (integer hex_small n) = 120
value_char (integer hex n) = 88
value_char (integer signed n) = 100
value_char (integer unsigned n) = 117

abbrev pub value_arg : Value → Arg
value_arg (character n) = word n
value_arg (string t) = text t
value_arg (pointer a) = address a
value_arg (integer k n) = word n

abbrev pub kind_base : Kind → ℕ
kind_base octal = 8
kind_base hex_small = 16
kind_base hex = 16
kind_base signed = 10
kind_base unsigned = 10

abbrev pub kind_flags : Kind → NumberType → NumberType
kind_flags octal t = t
kind_flags hex_small t = record t { small = true }
kind_flags hex t = t
kind_flags signed t = record t { sign = true }
kind_flags unsigned t = t

abbrev pub is_signed : Kind → Bool
is_signed octal = false
is_signed hex_small = false
is_signed hex = false
is_signed signed = true
is_signed unsigned = false

-- The format and the arguments of a list of items.
abbrev pub format_of : List Item → List ℕ
format_of [] = []
format_of (plain c ∷ items) = c ∷ format_of items
format_of (conversion d v ∷ items) = 37 ∷ spec_text d (value_char v ∷ format_of items)

abbrev pub args_of : List Item → List Arg
args_of [] = []
args_of (plain c ∷ items) = args_of items
args_of (conversion d v ∷ items) = value_arg v ∷ args_of items

-- A text in a field of a width.
abbrev pub in_field : (left : Bool) → (width : ℕ) → List ℕ → List ℕ
in_field left width cs =
    let spaces = replicate (width - length cs) 32 in if left then cs ++ spaces else spaces ++ cs

abbrev pub front : ℕ → List ℕ → List ℕ
front zero cs = []
front (suc n) [] = []
front (suc n) (c ∷ cs) = c ∷ front n cs

abbrev pub cut : Option (List ℕ) → List ℕ → List ℕ
cut none cs = cs
cut (some ds) cs = front (value 10 0 ds) cs

abbrev pub flags_of : Spec → NumberType
flags_of d = with_flags d.marks no_flags

-- An address without a width fills 16 characters with zeros in front.
abbrev pub pointer_flags : Spec → NumberType
pointer_flags d = elim d.width [ [] ↦ record (flags_of d) { zeropad = true } | c ∷ cs ↦ flags_of d ]

abbrev pub pointer_width : Spec → ℕ
pointer_width d = elim d.width [ [] ↦ 16 | c ∷ cs ↦ value 10 0 (c ∷ cs) ]

abbrev pub precision_value : Option (List ℕ) → ℕ
precision_value none = 0
precision_value (some ds) = value 10 0 ds

-- How many of its bits an argument is read in, and what they stand for.
abbrev pub bits_of : Qualifier → ℕ
bits_of no_qualifier = 32
bits_of short_arg = 16
bits_of long_arg = 64
bits_of long_long_arg = 64

abbrev pub integer_of : (signed : Bool) → (bits n : ℕ) → ℤ
integer_of false bits n = pos (n % 2 ^ bits)
integer_of true bits n =
    if ltb (n % 2 ^ bits) (2 ^ (bits - 1))
    then pos (n % 2 ^ bits)
    else negsuc (2 ^ bits - 1 - n % 2 ^ bits)

abbrev pub shown_text : Option (List ℕ) → List ℕ
shown_text none = 60 ∷ 78 ∷ 85 ∷ 76 ∷ 76 ∷ 62 ∷ []
shown_text (some cs) = cs

-- What a directive shows.
abbrev pub show : Spec → Value → List ℕ
show d (character n) = in_field (flags_of d).left (value 10 0 d.width) (n % 2 ^ 8 ∷ [])
show d (string t) = in_field (flags_of d).left (value 10 0 d.width) (cut d.precision (shown_text t))
show d (pointer a) =
    number_text false (pointer_flags d) 16 (pointer_width d) (precision_value d.precision) (pos a)
show d (integer k n) =
    number_text (is_signed k) (kind_flags k (flags_of d)) (kind_base k) (value 10 0 d.width)
      (precision_value d.precision) (integer_of (is_signed k) (bits_of d.qualifier) n)

abbrev pub show_all : List Item → List ℕ
show_all [] = []
show_all (plain c ∷ items) = c ∷ show_all items
show_all (conversion d v ∷ items) = show d v ++ show_all items

abbrev pub IsWord : Value → Type 0
IsWord (character n) = n < 2 ^ 64
IsWord (string t) = Unit
IsWord (pointer a) = a < 2 ^ 64
IsWord (integer k n) = n < 2 ^ 64

abbrev pub AreItems : List Item → Type 0
AreItems [] = Unit
AreItems (plain c ∷ items) = ((c == 37) ≡ false) × AreItems items
AreItems (conversion d v ∷ items) = IsSpec d × IsWord v × AreItems items

abbrev pub out_at : List ℕ → List Arg → Option ℕ → List (ℕ × ℕ) → Output
out_at w args b st = record { written = w; arg = args; base = b; stores = st }
