-- ===== src/Printk/Format.antt =====
-- lib/printk.c: `myprintf`, which makes the text of a format and its arguments.
pub mod Scan
pub mod Pad
pub mod Number
pub mod Render
pub mod Integer
pub mod Steps
pub mod Whole
pub mod Percent
use arm64os.Common.{
  ℕ, zero, suc, ◌+◌, ◌-◌, ◌%◌, ◌^◌, Bool, true, false, ◌&&◌, ◌||◌, ltb, leb, ◌==◌, if◌then◌else◌,
  Option, none, some, List, [], ◌∷◌, ◌++◌, replicate, length, Result, ok, fault, out_of_fuel, ◌>>=◌,
  deref,
}
use arm64os.Common.Int.{ℤ, pos, negsuc, ◌-ℤ◌, ltb_ℤ, pos_part}
use arm64os.Printk.{NumberType, number, Printk, printk}
use arm64os.Printk.Scanner.{
  Arg, Output, emit, arg_word, arg_text, arg_address, no_flags, scan_flags, scan_width,
  scan_precision, Qualifier, scan_qualifier, no_qualifier, short_arg, long_arg, long_long_arg,
}

-- `num`, a word, from an argument.
unfoldable pub num_of : Qualifier → (sign : Bool) → ℕ → ℕ
num_of long_long_arg sign n = n
num_of long_arg sign n = n
num_of short_arg sign n =
    let w = n % 2 ^ 16 in if sign && leb (2 ^ 15) w then w + (2 ^ 64 - 2 ^ 16) else w
num_of no_qualifier sign n =
    let w = n % 2 ^ 32 in if sign && leb (2 ^ 31) w then w + (2 ^ 64 - 2 ^ 32) else w

-- `while (--n > 0) *pos++ = ' '`, with `n` after it.
unfoldable pub fill_below : ℤ → List ℕ × ℤ
fill_below n =
    let m = n -ℤ pos 1 in (replicate (pos_part m) 32, if ltb_ℤ (pos 0) m then pos 0 else m)

-- `while (len < n--) *pos++ = ' '`, with `n` after it.
unfoldable pub fill_above : (len : ℕ) → ℤ → List ℕ × ℤ
fill_above len n =
    (replicate (pos_part (n -ℤ pos len)) 32, (if ltb_ℤ (pos len) n then pos len else n) -ℤ pos 1)

-- What a conversion has of its directive.
pub record Directive : Type 0 where
  pub flags : NumberType
  pub field_width : ℤ
  pub precision : ℤ
  pub qualifier : Qualifier

unfoldable pub put_char : Directive → Output → Result Output
unfolding arg_word fill_below
put_char d s = do
  (c, s1) ← arg_word s
  (let (lead, width) = if d.flags.left then ([], d.field_width) else fill_below d.field_width in
      ok (emit (lead ++ (c % 2 ^ 8) ∷ (fill_below width).0) s1))

-- `"<NULL>"`
abbrev pub null_text : List ℕ
null_text = 60 ∷ 78 ∷ 85 ∷ 76 ∷ 76 ∷ 62 ∷ []

unfoldable pub first_chars : ℕ → List ℕ → List ℕ
first_chars zero cs = []
first_chars (suc n) [] = []
first_chars (suc n) (c ∷ cs) = c ∷ first_chars n cs

abbrev pub text_of : Option (List ℕ) → List ℕ
text_of none = null_text
text_of (some cs) = cs

unfoldable pub put_text : Directive → List ℕ → Output → Output
unfolding fill_above first_chars
put_text d cs s =
    let len =
      if ltb_ℤ d.precision (pos 0)
      then length cs
      else if ltb_ℤ d.precision (pos (length cs))
      then pos_part d.precision
      else length cs in
    let (lead, width) =
      if d.flags.left then ([], d.field_width) else fill_above len d.field_width in
    emit (lead ++ first_chars len cs ++ (fill_above len width).0) s

unfoldable pub put_string : Directive → Output → Result Output
unfolding arg_text put_text
put_string d s = do (t, s1) ← arg_text s; ok (put_text d (text_of t) s1)

-- The number is put, once `base` is set; a `base` that was never set is a fault, one that `number`
-- refuses makes `pos` null.
unfoldable pub put_number : Directive → Output → Result Output
unfolding arg_word num_of
put_number d s = do
  (n, s1) ← arg_word s
  base ← deref s1.base
  cs ← deref (number (num_of d.qualifier d.flags.sign n) base d.field_width d.precision d.flags)
  ok (emit cs s1)

abbrev pub is_unset : ℤ → Bool
is_unset (pos n) = false
is_unset (negsuc n) = n == 0

unfoldable pub put_pointer : Directive → Output → Result Output
unfolding arg_address
put_pointer d s =
    let unset = is_unset d.field_width in
    let width = if unset then pos 16 else d.field_width in
    let flags = if unset then record d.flags { zeropad = true } else d.flags in
    do (a, s1) ← arg_address s; cs ← deref (number a 16 width d.precision flags); ok (emit cs s1)

-- `%n` stores the low byte of how many characters there are so far: `ip` points to a `char`.
unfoldable pub put_count : Output → Result Output
unfolding arg_address
put_count s = do
  (a, s1) ← arg_address s
  ok (record s1 { stores = (a, length s1.written % 2 ^ 8) ∷ s1.stores })

-- The base and the flags of the conversions of numbers.
unfoldable pub base_of : ℕ → NumberType → Option (ℕ × NumberType)
base_of c t =
    if c == 111
    then some (8, t)
    else if c == 120
    then some (16, record t { small = true })
    else if c == 88
    then some (16, t)
    else if c == 100 || c == 105
    then some (10, record t { sign = true })
    else if c == 117
    then some (10, t)
    else none

-- The conversions that put a number: also an unknown one, and `%%`, behind the character itself, in the
-- base that was set last.
unfoldable pub convert_number : (c : ℕ) → Directive → Output → Result Output
unfolding base_of put_number
convert_number c d s = elim (base_of c d.flags) [
  | none ↦ put_number d (emit (if c == 37 then c ∷ [] else 37 ∷ c ∷ []) s)
  | some b ↦ put_number (record d { flags = b.1 }) (record s { base = some b.0 })
]

-- The `switch` and what is behind it, with the rest of the format.
unfoldable pub convert : List ℕ → Directive → Output → Result (List ℕ × Output)
convert [] d s = do s1 ← put_number d (emit (37 ∷ []) s); ok ([], s1)
convert (c ∷ fmt) d s = do
  s1 ←
      (if c == 99
        then put_char d s
        else if c == 115
        then put_string d s
        else if c == 110
        then put_count s
        else if c == 112
        then put_pointer d s
        else convert_number c d s)
  ok (fmt, s1)

-- The round of the loop for what is behind a `%`.
unfoldable pub directive : List ℕ → Output → Result (List ℕ × Output)
unfolding scan_flags scan_width scan_precision scan_qualifier
directive fmt s =
    let (t, after_flags) = scan_flags fmt no_flags in
    do
      (width, flags, after_width, s1) ← scan_width after_flags t s
      (precision, after_precision, s2) ← scan_precision after_width s1
      (let (qualifier, conversion) = scan_qualifier after_precision in
          convert conversion
            (record {
              flags = flags;
              field_width = width;
              precision = precision;
              qualifier = qualifier;
            })
            s2)

-- The loop over the format, on fuel.
unfoldable pub format_loop : ℕ → List ℕ → Output → Result Output
unfolding directive
format_loop zero fmt s = out_of_fuel
format_loop (suc fuel) [] s = ok s
format_loop (suc fuel) (c ∷ fmt) s =
    if c == 37
    then (do (rest, s1) ← directive fmt s; format_loop fuel rest s1)
    else format_loop fuel fmt (emit (c ∷ []) s)

abbrev pub print_buf_size : ℕ
print_buf_size = 1024

-- `myprintf`: each round takes a character of the format at least. The size is not looked at there; a
-- text that does not fit, with the 0 behind it, is a fault.
unfoldable pub myprintf : (size : ℕ) → List ℕ → List Arg → Result Output
unfolding format_loop
myprintf size fmt args = do
  s ←
      format_loop (suc (length fmt)) fmt
        (record { written = []; arg = args; base = none; stores = [] })
  (if ltb (length s.written) size then ok s else fault)

-- `printk` of a format.
unfoldable pub printk_format : List ℕ → List Arg → Printk → Result (ℕ × Printk)
unfolding myprintf
printk_format fmt args s = do out ← myprintf print_buf_size fmt args; printk out.written s
