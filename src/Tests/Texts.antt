-- ===== src/Tests/Texts.antt =====
-- Tests of lib/printk.c.
use arm64os.Common.{
  ℕ, ◌-◌, ◌^◌, ◌≡◌, refl, arith, true, false, some, List, [], ◌∷◌, ◌++◌, Returns, ◌>>=◌,
}
use arm64os.Common.Int.{pos, negsuc}
use arm64os.Printk.{Printk, number, read, printk, init_printk_done}
use arm64os.Printk.Digits.{value, plain, number-value}
use arm64os.Printk.Log.{IsEmpty, init_printk_done-third}

abbrev empty_log : Printk
empty_log = record { ready = false; log_buf = λ _. 0; g_record = 0; g_record_len = 0; console = [] }

empty_log-IsEmpty : IsEmpty empty_log
empty_log-IsEmpty = record { down = refl; at_start = refl; no_text = refl }

-- "ff"
hexadecimal : number 255 16 (negsuc 0) (negsuc 0) (plain true) ≡ some (102 ∷ 102 ∷ [])
unfolding number
hexadecimal = refl

-- A negative number takes one character more than the width that is asked for, here 3.
negative_width :
    number (2 ^ 64 - 7) 10 (pos 3) (negsuc 0) (record (plain false) { sign = true })
    ≡ some (32 ∷ 32 ∷ 45 ∷ 55 ∷ [])
unfolding number
negative_width = refl

number-value_example :
    (text : List ℕ) × (number 1234 10 (negsuc 0) (negsuc 0) (plain false) ≡ some text)
    × (value 10 0 text ≡ 1234)
number-value_example = number-value false 1234 10 (omega arith) (omega arith) (omega arith)

init_printk_done-third_example :
    Returns
      (printk (65 ∷ []) empty_log
        >>= (λ (r : ℕ × Printk). printk (66 ∷ []) r.1)
        >>= (λ (r : ℕ × Printk). printk (67 ∷ []) r.1)
        >>= (λ (r : ℕ × Printk). init_printk_done r.1))
      (λ t. t.console ≡ [] ++ ((65 ∷ 67 ∷ []) ++ read 2 1 (λ _. 0)))
init_printk_done-third_example =
    init_printk_done-third (65 ∷ []) (66 ∷ []) empty_log empty_log-IsEmpty (67 ∷ []) refl refl
      (omega arith)
