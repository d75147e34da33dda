-- ===== src/Printk.antt =====
-- lib/printk.c: the text of a number, and the log of early messages. Characters are their codes.
-- `printk` takes the text that `myprintf`, in Format, makes of a format.
pub mod Digits
pub mod Width
pub mod Log
pub mod Scanner
pub mod Format
use arm64os.Common.{
  ℕ, zero, suc, ◌+◌, ◌-◌, ◌/◌, ◌%◌, ◌^◌, Bool, true, not, ◌&&◌, ◌||◌, ltb, leb, ◌==◌, if◌then◌else◌,
  Option, none, some, List, [], ◌∷◌, ◌++◌, replicate, length, Result, ok, fault,
}
use arm64os.Common.Int.{ℤ, pos, negsuc, ◌-ℤ◌, ltb_ℤ, pos_part}

-- The bits of `type`.
pub record NumberType : Type 0 where
  pub zeropad : Bool
  pub sign : Bool
  pub plus : Bool
  pub space : Bool
  pub left : Bool
  pub special : Bool
  pub small : Bool

-- The characters of `digits`, below 36.
unfoldable pub digit : (small : Bool) → ℕ → ℕ
digit small n = if ltb n 10 then 48 + n else if small then 87 + n else 55 + n

-- The loop that fills `tmp`, on fuel, with the last character first: the order of the output.
unfoldable pub digits_loop : ℕ → (small : Bool) → (num base : ℕ) → List ℕ → Option (List ℕ)
unfolding digit
digits_loop zero small num base tmp = none
digits_loop (suc fuel) small num base tmp =
    let rest = digits_loop fuel small (num / base) base (digit small (num % base) ∷ tmp) in
    if num == 0 then some tmp else rest

-- 64 rounds are the bits of a number, and one more ends the loop.
unfoldable pub digits : (small : Bool) → (num base : ℕ) → Option (List ℕ)
unfolding digits_loop
digits small num base = if num == 0 then some (48 ∷ []) else digits_loop 65 small num base []

-- The sign, or 0, with what is left of the number and the width.
unfoldable pub sign_of : NumberType → (num : ℕ) → ℤ → ℕ × ℕ × ℤ
sign_of t num size =
    if not t.sign
    then (0, num, size)
    else if leb (2 ^ 63) num
    then (45, 2 ^ 64 - num, size)
    else if t.plus
    then (43, num, size -ℤ pos 1)
    else if t.space
    then (32, num, size -ℤ pos 1)
    else (0, num, size)

-- `while (size-- > 0) *str++ = c`, with `size` after it.
unfoldable pub pad : ℤ → (c : ℕ) → List ℕ × ℤ
pad (pos n) c = (replicate n c, negsuc 0)
pad (negsuc n) c = ([], negsuc (suc n))

unfoldable pub prefix_width : NumberType → (base : ℕ) → ℕ
prefix_width t base =
    if not t.special then 0 else if base == 16 then 2 else if base == 8 then 1 else 0

unfoldable pub prefix : NumberType → (base : ℕ) → List ℕ
prefix t base =
    if not t.special
    then []
    else if base == 8
    then 48 ∷ []
    else if base == 16
    then 48 ∷ (if t.small then 120 else 88) ∷ []
    else []

-- What `number` writes once it has the sign and the digits `tmp`.
unfoldable pub layout : NumberType → (base sign : ℕ) → (size precision : ℤ) → List ℕ → List ℕ
unfolding pad prefix prefix_width
layout t base sign size precision tmp =
    let zeropad = t.zeropad && not t.left in
    let i = pos (length tmp) in
    let wide = if ltb_ℤ precision i then i else precision in
    let size1 = size -ℤ pos (prefix_width t base) -ℤ wide in
    let (lead, size2) = if zeropad || t.left then ([], size1) else pad size1 32 in
    let (middle, size3) = if t.left then ([], size2) else pad size2 (if zeropad then 48 else 32) in
    lead
    ++ (if sign == 0 then [] else sign ∷ [])
    ++ prefix t base
    ++ middle
    ++ replicate (pos_part (wide -ℤ i)) 48
    ++ tmp
    ++ (pad size3 32).0

-- The text that `number` adds to the buffer, or `none` for a base that it refuses.
unfoldable pub number : (num base : ℕ) → (size precision : ℤ) → NumberType → Option (List ℕ)
unfolding sign_of digits layout
number num base size precision t =
    let (sign, n, width) = sign_of t num size in
    let text : Option (List ℕ) = elim (digits t.small n base) [
      | none ↦ none
      | some tmp ↦ some (layout t base sign width precision tmp)
    ] in
    if ltb base 2 || ltb 36 base then none else text

abbrev pub log_buf_len : ℕ
log_buf_len = 2 ^ 17

-- `g_record` is an index of `log_buf`. `console` is what was put, the first character first.
pub record Printk : Type 0 where
  pub ready : Bool
  pub log_buf : ℕ → ℕ
  pub g_record : ℕ
  pub g_record_len : ℕ
  pub console : List ℕ

unfoldable pub copy_at : ℕ → List ℕ → (ℕ → ℕ) → ℕ → ℕ
copy_at o [] m = m
copy_at o (c ∷ cs) m = copy_at (suc o) cs (λ j. if j == o then c else m j)

unfoldable pub read : (o n : ℕ) → (ℕ → ℕ) → List ℕ
read o zero m = []
read o (suc n) m = m o ∷ read (suc o) n m

-- The loop that puts `print_buf`, at character `i`: it stops behind the character at 1025.
unfoldable pub put_from : ℕ → List ℕ → List ℕ
put_from i [] = []
put_from i (c ∷ cs) = if ltb 1024 i then c ∷ [] else c ∷ put_from (suc i) cs

-- `printk` of the text that `myprintf` made. A copy beyond `log_buf` is a fault.
unfoldable pub printk : List ℕ → Printk → Result (ℕ × Printk)
unfolding copy_at put_from
printk text s =
    let len = length text in
    if s.ready
    then ok (len, record s { console = s.console ++ put_from 0 text })
    else if leb (s.g_record + len) log_buf_len
    then ok (
      0,
      record s {
        log_buf = copy_at s.g_record text s.log_buf;
        g_record = len;
        g_record_len = s.g_record_len + len;
      },
    )
    else fault

unfoldable pub init_printk_done : Printk → Result Printk
unfolding read
init_printk_done s =
    if leb s.g_record_len log_buf_len
    then ok (record s {
      ready = true;
      g_record = 0;
      g_record_len = 0;
      console = s.console ++ read 0 s.g_record_len s.log_buf;
    })
    else fault
