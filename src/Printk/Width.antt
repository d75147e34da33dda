-- ===== src/Printk/Width.antt =====
-- The width of what `number` writes.
use arm64os.Common.{
  ℕ, ◌+◌, ◌≡◌, refl, arith, Bool, true, false, List, length, length-append, length-replicate, max,
}
use arm64os.Common.Int.{ℤ, pos, negsuc, ◌-ℤ◌, ltb_ℤ, pos_part}
use arm64os.Printk.{NumberType, pad, prefix, prefix_width, layout}

pad-length : (z : ℤ) (c : ℕ) → length (pad z c).0 ≡ pos_part z
unfolding pad
pad-length (pos n) c = length-replicate n c
pad-length (negsuc n) c = refl

pad-nonpositive : (z : ℤ) (c : ℕ) → pos_part (pad z c).1 ≡ 0
unfolding pad
pad-nonpositive (pos n) c = refl
pad-nonpositive (negsuc n) c = refl

room : (w n : ℕ) → pos_part (pos w -ℤ pos 0 -ℤ pos n) + n ≡ max w n
room w n = ground arith

no_zeros : (n : ℕ) → pos n -ℤ pos n ≡ pos 0
no_zeros n = ground arith

short : (n : ℕ) → ltb_ℤ (negsuc 0) (pos n) ≡ true
short n = ground arith

abbrev with_flags : (zeropad left sign plus space small : Bool) → NumberType
with_flags zeropad left sign plus space small = record {
  zeropad = zeropad;
  sign = sign;
  plus = plus;
  space = space;
  left = left;
  special = false;
  small = small;
}

flags-length :
    (zeropad left sign plus space small : Bool) (base w : ℕ) (tmp : List ℕ)
    → length (layout (with_flags zeropad left sign plus space small) base 0 (pos w) (negsuc 0) tmp)
      ≡ max w (length tmp)
unfolding layout prefix prefix_width
flags-length true true sign plus space small base w tmp =
    let n = length tmp in
    rw (short n, no_zeros n)
      (simp length-append (omega (arith, pad-length (pos w -ℤ pos 0 -ℤ pos n) 32, room w n)))
flags-length false true sign plus space small base w tmp =
    let n = length tmp in
    rw (short n, no_zeros n)
      (simp length-append (omega (arith, pad-length (pos w -ℤ pos 0 -ℤ pos n) 32, room w n)))
flags-length true false sign plus space small base w tmp =
    let n = length tmp in
    let a = pad (pos w -ℤ pos 0 -ℤ pos n) 48 in
    rw (short n, no_zeros n)
      (simp length-append (
        omega (
          arith,
          pad-length (pos w -ℤ pos 0 -ℤ pos n) 48,
          pad-length a.1 32,
          pad-nonpositive (pos w -ℤ pos 0 -ℤ pos n) 48,
          room w n,
        )))
flags-length false false sign plus space small base w tmp =
    let n = length tmp in
    let a = pad (pos w -ℤ pos 0 -ℤ pos n) 32 in
    let b = pad a.1 32 in
    rw (short n, no_zeros n)
      (simp length-append (
        omega (
          arith,
          pad-length (pos w -ℤ pos 0 -ℤ pos n) 32,
          pad-length a.1 32,
          pad-length b.1 32,
          pad-nonpositive (pos w -ℤ pos 0 -ℤ pos n) 32,
          pad-nonpositive a.1 32,
          room w n,
        )))

-- A number without sign and prefix, whose precision is not given, takes the width that is asked for, or
-- that of its digits if they are wider, on whichever side and with whichever character it is padded.
pub layout-length :
    (t : NumberType) (base w : ℕ) (tmp : List ℕ)
    → length (layout (record t { special = false }) base 0 (pos w) (negsuc 0) tmp)
      ≡ max w (length tmp)
layout-length t base w tmp = flags-length t.zeropad t.left t.sign t.plus t.space t.small base w tmp
