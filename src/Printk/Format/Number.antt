-- ===== src/Printk/Format/Number.antt =====
-- What a directive shows of a number, described without the code that writes it.
pub mod Digits
pub mod Field
pub mod Shown
use arm64os.Common.{
  ℕ, zero, suc, ◌+◌, ◌-◌, ◌/◌, ◌%◌, ◌^◌, ◌<◌, ◌≡◌, Bool, true, false, ◌&&◌, ltb, ◌==◌,
  if◌then◌else◌, List, [], ◌∷◌, ◌++◌, replicate, length,
}
use arm64os.Common.Int.{ℤ, pos, negsuc}
use arm64os.Printk.{NumberType}

-- The numerals of a number below 2 ^ fuel, from the highest on.
abbrev pub character_of : (small : Bool) → ℕ → ℕ
character_of small n = if ltb n 10 then n + 48 else n - 10 + (if small then 97 else 65)

unfoldable pub numerals : ℕ → (small : Bool) → (base n : ℕ) → List ℕ
numerals zero small base n = []
numerals (suc fuel) small base n =
    let low = character_of small (n % base) ∷ [] in
    if ltb n base then low else numerals fuel small base (n / base) ++ low

-- The sign of an integer, where signs are shown.
abbrev pub sign_text : (signed : Bool) → NumberType → ℤ → List ℕ
sign_text false t z = []
sign_text true t (negsuc n) = 45 ∷ []
sign_text true t (pos n) = if t.plus then 43 ∷ [] else if t.space then 32 ∷ [] else []

abbrev pub base_text : NumberType → (base : ℕ) → List ℕ
base_text t base =
    if t.special && (base == 16)
    then 48 ∷ (if t.small then 120 else 88) ∷ []
    else if t.special && (base == 8)
    then 48 ∷ []
    else []

-- The field of a number: `room` characters of padding.
abbrev pub in_room : NumberType → (room : ℕ) → (sign before body : List ℕ) → List ℕ
in_room t room sign before body =
    if t.left
    then sign ++ before ++ body ++ replicate room 32
    else if t.zeropad
    then sign ++ before ++ replicate room 48 ++ body
    else replicate room 32 ++ sign ++ before ++ body

abbrev pub magnitude : ℤ → ℕ
magnitude (pos n) = n
magnitude (negsuc n) = suc n

-- A minus takes no room of the width, unlike the other signs.
abbrev pub sign_room : (signed : Bool) → NumberType → ℤ → ℕ
sign_room signed t (negsuc n) = 0
sign_room signed t (pos n) = length (sign_text signed t (pos n))

unfoldable pub number_text : (signed : Bool) → NumberType → (base width precision : ℕ) → ℤ → List ℕ
unfolding numerals
number_text signed t base width precision z =
    let ds = numerals 64 t.small base (magnitude z) in
    let body = replicate (precision - length ds) 48 ++ ds in
    let before = base_text t base in
    in_room t (width - sign_room signed t z - length before - length body) (sign_text signed t z)
      before body

-- The word that holds an integer.
abbrev pub word_of : ℤ → ℕ
word_of (pos n) = n
word_of (negsuc n) = 2 ^ 64 - 1 - n

-- The integers that a signed or an unsigned number can be.
abbrev pub IsInteger : (signed : Bool) → ℤ → Type 0
IsInteger false z = (n : ℕ) × (z ≡ pos n) × (n < 2 ^ 64)
IsInteger true (pos n) = n < 2 ^ 63
IsInteger true (negsuc n) = n < 2 ^ 63
