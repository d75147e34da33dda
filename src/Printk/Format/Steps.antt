-- ===== src/Printk/Format/Steps.antt =====
-- What the single conversions of `myprintf` put.
use arm64os.Common.{
  ℕ, ◌-◌, ◌%◌, ◌^◌, ◌<◌, ◌≡◌, sym, ◌∙◌, inl, inr, refl, arith, ap, ltb, if◌then◌else◌, Option, none,
  some, List, [], ◌∷◌, ◌++◌, ok, replicate, length, Bool-cases, append-nil,
}
use arm64os.Common.Int.{pos, ltb_ℤ, pos_part}
use arm64os.Printk.{number}
use arm64os.Printk.Digits.{value}
use arm64os.Printk.Scanner.{Arg, word, address, arg_word, arg_text, arg_address}
use arm64os.Printk.Format.{
  first_chars, null_text, num_of, put_text, put_char, put_string, put_pointer, put_number,
  convert_number, convert, base_of,
}
use arm64os.Printk.Format.Scan.{Spec, read_of, width_of, precision_of}
use arm64os.Printk.Format.Pad.{
  below_once, below_twice, above_once, above_twice, first_chars_all, length-first_chars,
}
use arm64os.Printk.Format.Integer.{first_chars-front, pos-width, number-show, number-show_pointer}
use arm64os.Printk.Format.Render.{
  Kind, octal, hex_small, hex, signed, unsigned, Value, character, string, pointer, integer,
  value_char, value_arg, kind_base, in_field, cut, flags_of, kind_flags, IsWord, show, out_at,
}

abbrev pub base_after : Value → Option ℕ → Option ℕ
base_after (integer k n) b = some (kind_base k)
base_after (character n) b = b
base_after (string t) b = b
base_after (pointer a) b = b

module _ (d : Spec) (w : List ℕ) (rest : List Arg) (b : Option ℕ) (st : List (ℕ × ℕ)) where
  char_lem :
      (n : ℕ)
      → put_char (read_of d) (out_at w (word n ∷ rest) b st)
        ≡ ok (
            out_at
              (w ++ in_field (flags_of d).left (value 10 0 d.width) (n % 2 ^ 8 ∷ []))
              rest
              b
              st)
  unfolding put_char arg_word
  char_lem n = elim (Bool-cases (flags_of d).left) [
    | inl left ↦ rw (left, below_once (width_of d.width), pos-width d.width)
    | inr right ↦
        rw (right, below_twice (width_of d.width), below_once (width_of d.width), pos-width d.width)
  ]

  -- The length that is shown, and what is shown.
  text_with :
      (cs : List ℕ) (len : ℕ)
      → (if ltb_ℤ (precision_of d.precision) (pos 0)
          then length cs
          else if ltb_ℤ (precision_of d.precision) (pos (length cs))
          then pos_part (precision_of d.precision)
          else length cs)
        ≡ len
      → first_chars len cs ≡ cut d.precision cs
      → length (cut d.precision cs) ≡ len
      → put_text (read_of d) cs (out_at w rest b st)
        ≡ out_at
            (w ++ in_field (flags_of d).left (value 10 0 d.width) (cut d.precision cs))
            rest
            b
            st
  unfolding put_text
  text_with cs len e first long = elim (Bool-cases (flags_of d).left) [
    | inl left ↦ rw (e, left, first, long, above_once len (width_of d.width), pos-width d.width)
    | inr right ↦ rw (
      e,
      right,
      first,
      long,
      above_twice len (width_of d.width),
      above_once len (width_of d.width),
      pos-width d.width,
      append-nil (replicate (value 10 0 d.width - len) 32 ++ cut d.precision cs),
    )
  ]

  text_lem :
      (cs : List ℕ)
      → put_text (read_of d) cs (out_at w rest b st)
        ≡ out_at
            (w ++ in_field (flags_of d).left (value 10 0 d.width) (cut d.precision cs))
            rest
            b
            st
  text_lem cs = with_precision d.precision refl
    where
      with_precision :
          (p : Option (List ℕ))
          → d.precision ≡ p
          → put_text (read_of d) cs (out_at w rest b st)
            ≡ out_at
                (w ++ in_field (flags_of d).left (value 10 0 d.width) (cut d.precision cs))
                rest
                b
                st
      with_precision none e =
          text_with cs (length cs) (rw e) (rw e (first_chars_all (length cs) cs (omega arith)))
            (rw e)
      with_precision (some ds) e = elim (Bool-cases (ltb (value 10 0 ds) (length cs))) [
        | inl cuts ↦
            let same = first_chars-front (value 10 0 ds) cs in
            text_with cs (value 10 0 ds) (rw e (ground (arith, cuts))) (rw e same) (
              rw e (
                ap length (sym same)
                ∙ length-first_chars (value 10 0 ds) cs (ground (arith, cuts))))
        | inr fits ↦
            let all =
              sym (first_chars-front (value 10 0 ds) cs)
              ∙ first_chars_all (value 10 0 ds) cs (ground (arith, fits)) in
            text_with cs (length cs) (rw e (ground (arith, fits)))
              (rw (e, all) (first_chars_all (length cs) cs (omega arith))) (rw (e, all))
      ]

  abbrev numbers : Kind → ℕ → Option (List ℕ)
  numbers k n =
      let t = kind_flags k (flags_of d) in
      number (num_of d.qualifier t.sign n) (kind_base k) (width_of d.width)
        (precision_of d.precision) t

  integer_with :
      (k : Kind) (n : ℕ) (cs fmt : List ℕ)
      → numbers k n ≡ some cs
      → convert (value_char (integer k n) ∷ fmt) (read_of d) (out_at w (word n ∷ rest) b st)
        ≡ ok (fmt, out_at (w ++ cs) rest (some (kind_base k)) st)
  unfolding convert convert_number base_of put_number arg_word
  integer_with octal n cs fmt h = rw h
  integer_with hex_small n cs fmt h = rw h
  integer_with hex n cs fmt h = rw h
  integer_with signed n cs fmt h = rw h
  integer_with unsigned n cs fmt h = rw h

  pointer_lem :
      (a : ℕ)
      → a < 2 ^ 64
      → put_pointer (read_of d) (out_at w (address a ∷ rest) b st)
        ≡ ok (out_at (w ++ show d (pointer a)) rest b st)
  unfolding put_pointer arg_address
  pointer_lem a h = rw (number-show_pointer d a h)

  pub convert_lem :
      (v : Value) (fmt : List ℕ)
      → IsWord v
      → convert (value_char v ∷ fmt) (read_of d) (out_at w (value_arg v ∷ rest) b st)
        ≡ ok (fmt, out_at (w ++ show d v) rest (base_after v b) st)
  unfolding convert put_string arg_text
  convert_lem (character n) fmt h = rw (char_lem n)
  convert_lem (string none) fmt h = rw (text_lem null_text)
  convert_lem (string (some cs)) fmt h = rw (text_lem cs)
  convert_lem (pointer a) fmt h = rw (pointer_lem a h)
  convert_lem (integer k n) fmt h =
      integer_with k n (show d (integer k n)) fmt (number-show d k n h)
