-- ===== src/Tests/Formats.antt =====
-- Tests of `myprintf`, for the format `n=%05d%%`.
use arm64os.Common.{
  ℕ, ◌≡◌, refl, arith, ap, ltb, Option, none, List, [], ◌∷◌, ok, fault, length, if◌then◌else◌,
}
use arm64os.Printk.Format.Number.{number_text, numerals}
use arm64os.Printk.Scanner.{no_qualifier, word}
use arm64os.Printk.Format.{myprintf}
use arm64os.Printk.Format.Scan.{Spec, IsSpec, zero_sign}
use arm64os.Printk.Format.Render.{
  Item, plain, conversion, integer, signed, format_of, args_of, show_all, out_at,
}
use arm64os.Printk.Format.Whole.{myprintf-show_all}
use arm64os.Printk.Format.Percent.{myprintf-percent}

abbrev five_wide : Spec
five_wide = record {
  marks = zero_sign ∷ [];
  width = 53 ∷ [];
  precision = none;
  qualifier = no_qualifier;
}

five_wide-IsSpec : IsSpec five_wide
five_wide-IsSpec = record {
  width = (omega arith, omega arith, tt);
  first = λ c cs e.
      let same : 53 ≡ c = ap (λ l. elim l [ [] ↦ 53 | x ∷ xs ↦ x ]) e in ground (arith, same);
  precision = tt;
}

abbrev counter : List Item
counter = plain 110 ∷ plain 61 ∷ conversion five_wide (integer signed 42) ∷ []

counter_format : format_of counter ≡ 110 ∷ 61 ∷ 37 ∷ 48 ∷ 53 ∷ 100 ∷ []
counter_format = refl

counter_text : show_all counter ≡ 110 ∷ 61 ∷ 48 ∷ 48 ∷ 48 ∷ 52 ∷ 50 ∷ []
unfolding number_text numerals
counter_text = refl

myprintf-show_all_example :
    (b : Option ℕ) × (myprintf 1024 (format_of counter) (args_of counter) ≡ (
      if ltb (length (show_all counter)) 1024
      then ok (out_at (show_all counter) [] b [])
      else fault))
myprintf-show_all_example =
    myprintf-show_all 1024 counter (refl, (refl, (five_wide-IsSpec, omega arith, tt)))

myprintf-percent_example : myprintf 1024 (110 ∷ 61 ∷ 37 ∷ 37 ∷ 48 ∷ []) (word 42 ∷ []) ≡ fault
myprintf-percent_example =
    myprintf-percent 1024 (110 ∷ 61 ∷ []) (48 ∷ []) (word 42 ∷ []) (refl, (refl, tt))
