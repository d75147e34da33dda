-- ===== src/Common/Print.antt =====
-- What the kernel prints, before the text is made: the calls of `printk`.
use Prim.Native.String.{String}
use Prim.Native.Nat.{ℕ}
use mathlib.Core.List.{List}

-- A call of `printk`: its format, the numbers and the texts that it gets.
pub record PrintCall : Type 0 where
  pub format : String
  pub numbers : List ℕ
  pub texts : List String

abbrev pub say : String → List ℕ → List String → PrintCall
say format numbers texts = record { format = format; numbers = numbers; texts = texts }
