-- ===== src/Printk/Format/Percent.antt =====
-- What `myprintf` makes of `%%`.
use arm64os.Common.{
  ℕ, zero, suc, ◌<◌, ◌≡◌, refl, arith, ◌∙◌, none, List, [], ◌∷◌, ◌++◌, map, fault, length,
  length-append,
}
use arm64os.Printk.Scanner.{
  scan_flags, scan_width, scan_precision, scan_qualifier, scan_number, scan_digits, set_flag,
  scan_long, Arg, word, text, address, arg_word,
}
use arm64os.Printk.Format.{
  num_of, put_number, convert_number, convert, directive, format_loop, myprintf, base_of,
}
use arm64os.Printk.Format.Render.{plain, AreItems, out_at}
use arm64os.Printk.Format.Whole.{loop_plain}

module _ (fmt : List ℕ) where
  percent_first :
      (fuel : ℕ) (w : List ℕ) (args : List Arg)
      → format_loop (suc fuel) (37 ∷ 37 ∷ fmt) (out_at w args none []) ≡ fault
  unfolding format_loop directive convert convert_number put_number arg_word base_of num_of
      scan_flags scan_width scan_precision scan_qualifier scan_number scan_digits set_flag scan_long
  percent_first fuel w [] = refl
  percent_first fuel w (word n ∷ args) = refl
  percent_first fuel w (text t ∷ args) = refl
  percent_first fuel w (address a ∷ args) = refl

  percent_behind :
      (fuel : ℕ) (cs w : List ℕ) (args : List Arg)
      → length cs < fuel
      → AreItems (map plain cs)
      → format_loop fuel (cs ++ (37 ∷ 37 ∷ fmt)) (out_at w args none []) ≡ fault
  percent_behind zero cs w args h are = absurd (omega (arith, h))
  percent_behind (suc fuel) [] w args h are = percent_first fuel w args
  percent_behind (suc fuel) (c ∷ cs) w args h (no_percent, are) =
      loop_plain fuel c (cs ++ (37 ∷ 37 ∷ fmt)) (out_at w args none []) no_percent
      ∙ percent_behind fuel cs (w ++ (c ∷ [])) args (omega (arith, h)) are

-- For a format in which `%%` comes before any other directive `myprintf` does not come to its end,
-- whatever its arguments are: behind the `%` it goes on to put a number, with a base that was never set.
pub myprintf-percent :
    (size : ℕ) (cs fmt : List ℕ) (args : List Arg)
    → AreItems (map plain cs)
    → myprintf size (cs ++ (37 ∷ 37 ∷ fmt)) args ≡ fault
unfolding myprintf
myprintf-percent size cs fmt args are =
    let enough : length cs < suc (length (cs ++ (37 ∷ 37 ∷ fmt))) =
      simp length-append (omega arith) in
    rw (percent_behind fmt (suc (length (cs ++ (37 ∷ 37 ∷ fmt)))) cs [] args enough are)
