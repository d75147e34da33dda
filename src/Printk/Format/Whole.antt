-- ===== src/Printk/Format/Whole.antt =====
-- What `myprintf` makes of a whole format, by the directives that stand in it.
use arm64os.Common.{
  ℕ, zero, suc, ◌≤◌, ◌<◌, ◌≡◌, refl, arith, ap, sym, ◌∙◌, false, ltb, ◌==◌, if◌then◌else◌, Option,
  none, List, [], ◌∷◌, ◌++◌, append_assoc, ok, fault, length, append-nil, length-append,
}
use arm64os.Printk.Scanner.{Output, emit}
use arm64os.Printk.Format.{directive, format_loop, myprintf}
use arm64os.Printk.Format.Scan.{spec_text, IsConversion, directive-spec_text}
use arm64os.Printk.Format.Render.{
  octal, hex_small, hex, signed, unsigned, Value, character, string, pointer, integer, Item, plain,
  conversion, value_char, value_arg, format_of, args_of, show, show_all, AreItems, out_at,
}
use arm64os.Printk.Format.Steps.{base_after, convert_lem}

value_char-IsConversion : (v : Value) → IsConversion (value_char v)
value_char-IsConversion (character n) = (omega arith, refl, refl, refl)
value_char-IsConversion (string t) = (omega arith, refl, refl, refl)
value_char-IsConversion (pointer a) = (omega arith, refl, refl, refl)
value_char-IsConversion (integer octal n) = (omega arith, refl, refl, refl)
value_char-IsConversion (integer hex_small n) = (omega arith, refl, refl, refl)
value_char-IsConversion (integer hex n) = (omega arith, refl, refl, refl)
value_char-IsConversion (integer signed n) = (omega arith, refl, refl, refl)
value_char-IsConversion (integer unsigned n) = (omega arith, refl, refl, refl)

pub loop_plain :
    (fuel c : ℕ) (fmt : List ℕ) (s : Output)
    → (c == 37) ≡ false
    → format_loop (suc fuel) (c ∷ fmt) s ≡ format_loop fuel fmt (emit (c ∷ []) s)
unfolding format_loop
loop_plain fuel c fmt s h = rw h

pub loop_conversion :
    (fuel : ℕ) (fmt rest : List ℕ) (s s' : Output)
    → directive fmt s ≡ ok (rest, s')
    → format_loop (suc fuel) (37 ∷ fmt) s ≡ format_loop fuel rest s'
unfolding format_loop
loop_conversion fuel fmt rest s s' h = rw h

loop_end : (fuel : ℕ) (s : Output) → format_loop (suc fuel) [] s ≡ ok s
unfolding format_loop
loop_end fuel s = refl

-- The loop on the format of the items, on fuel for each of them and one more.
loop_lem :
    (fuel : ℕ) (items : List Item) (w : List ℕ) (b : Option ℕ) (st : List (ℕ × ℕ))
    → length items < fuel
    → AreItems items
    → (b' : Option ℕ) × (format_loop fuel (format_of items) (out_at w (args_of items) b st)
        ≡ ok (out_at (w ++ show_all items) [] b' st))
loop_lem zero items w b st h are = absurd (omega (arith, h))
loop_lem (suc fuel) [] w b st h are =
    (b, loop_end fuel (out_at w [] b st) ∙ ap (λ z. ok (out_at z [] b st)) (sym (append-nil w)))
loop_lem (suc fuel) (plain c ∷ items) w b st h (no_percent, are) =
    let (b', runs) = loop_lem fuel items (w ++ (c ∷ [])) b st (omega (arith, h)) are in
    (
      b',
      loop_plain fuel c (format_of items) (out_at w (args_of items) b st) no_percent
          ∙ runs
          ∙ ap (λ z. ok (out_at z [] b' st)) (append_assoc w (c ∷ []) (show_all items)),
    )
loop_lem (suc fuel) (conversion d v ∷ items) w b st h (is, is_word, are) =
    let (b', runs) =
      loop_lem fuel items (w ++ show d v) (base_after v b) st (omega (arith, h)) are in
    let start = out_at w (value_arg v ∷ args_of items) b st in
    let reads =
      directive-spec_text d (value_char v) (format_of items) start is (value_char-IsConversion v)
      ∙ convert_lem d w (args_of items) b st v (format_of items) is_word in
    (
      b',
      loop_conversion fuel (spec_text d (value_char v ∷ format_of items)) (format_of items) start
            (out_at (w ++ show d v) (args_of items) (base_after v b) st) reads
          ∙ runs
          ∙ ap (λ z. ok (out_at z [] b' st)) (append_assoc w (show d v) (show_all items)),
    )

items_length : (items : List Item) → length items ≤ length (format_of items)
items_length [] = omega arith
items_length (plain c ∷ items) = omega (arith, items_length items)
items_length (conversion d v ∷ items) = simp length-append (omega (arith, items_length items))

-- `myprintf` comes to its end for every format that is made of characters other than `%` and of the
-- directives `c`, `s`, `p`, `o`, `x`, `X`, `d` and `u`, with flags, with a width and a precision in
-- digits or without, and with the qualifier `h`, `l`, `ll` or none, where the arguments are words, texts
-- and addresses: it writes the characters and what the directives show, one after another, each argument
-- is used once, and nothing is stored. A directive shows the low byte of a character; a text, or `<NULL>`,
-- cut to the precision; an integer of 16, 32 or 64 bits by the qualifier, in two's complement for `d`, as
-- its numerals in the base of the directive, with the zeros of the precision, the prefix of its base and
-- its sign as the flags ask; all in a field of the width, in which a minus takes no room, and an address
-- without a width in one of 16 with zeros in front. A text that does not fit with its 0 goes beyond the
-- buffer.
pub myprintf-show_all :
    (size : ℕ) (items : List Item)
    → AreItems items
    → (b : Option ℕ) × (myprintf size (format_of items) (args_of items) ≡ (
        if ltb (length (show_all items)) size then ok (out_at (show_all items) [] b []) else fault))
unfolding myprintf
myprintf-show_all size items are =
    let (b, runs) =
      loop_lem (suc (length (format_of items))) items [] none [] (omega (arith, items_length items))
        are in
    (b, rw runs)
