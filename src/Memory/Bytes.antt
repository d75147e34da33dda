-- ===== src/Memory/Bytes.antt =====
-- The loops of lib/string.c.
use arm64os.Common.{
  ℕ, zero, suc, ◌+◌, ◌-◌, ◌*◌, ◌/◌, ◌%◌, ◌^◌, ◌≤◌, ◌<◌, ◌≡◌, ◌≢◌, arith, ◌∙◌, Bool, true, false,
  ltb, leb, ◌&&◌, ◌==◌, if◌then◌else◌, update, bit_or, some, Bool-cases, inl, inr, ◌⊎◌, ltb→lt,
  ltb→le, ==_iff,
}
use arm64os.Common.Bits.{and_low_mask, or_disjoint}
use arm64os.Memory.{
  strlen_loop, strlen, memcpy, memset_1bytes, store64, memset_16bytes, repeat_byte,
}

-- Whether an address is one of the `count` from `s` on.
abbrev pub within : (s count a : ℕ) → Bool
within s count a = leb s a && ltb a (s + count)

-- `m` with the bytes from `s` on, `count` of them, set to `v`.
abbrev pub IsFilled : (s count v : ℕ) → (m t : ℕ → ℕ) → Type 0
IsFilled s count v m t = (a : ℕ) → t a ≡ (if within s count a then v else m a)

strlen_loop_lem :
    (fuel s sc e : ℕ) (m : ℕ → ℕ)
    → s ≤ sc
    → sc ≤ e
    → m e ≡ 0
    → ((j : ℕ) → sc ≤ j → j < e → m j ≢ 0)
    → e < sc + fuel
    → strlen_loop fuel s sc m ≡ some ((e - s) % 2 ^ 32)
unfolding strlen_loop
strlen_loop_lem zero s sc e m lo hi end before enough = absurd (omega arith)
strlen_loop_lem (suc fuel) s sc e m lo hi end before enough = elim (Bool-cases (m sc == 0)) [
  | inl found ↦
      let here : sc ≡ e = ground (arith, before sc) in
      let zero_byte : (m e == 0) ≡ true = ground (arith, end) in rw (here, zero_byte)
  | inr more ↦ rw more (
      strlen_loop_lem fuel s (sc + 1) e m (omega arith) (ground (arith, end)) end
        (λ j h k. before j (omega arith) k) (omega arith))
]

-- `strlen` returns the distance to the first zero byte, given one round more than that, where the
-- distance is below 2 ^ 32.
pub strlen_first :
    (fuel s n : ℕ) (m : ℕ → ℕ)
    → m (s + n) ≡ 0
    → ((j : ℕ) → s ≤ j → j < s + n → m j ≢ 0)
    → n < fuel
    → n < 2 ^ 32
    → strlen fuel s m ≡ some n
strlen_first fuel s n m end before enough small =
    let e : (s + n - s) % 2 ^ 32 ≡ n = omega arith in
    unfold strlen in
    (strlen_loop_lem fuel s s (s + n) m (omega arith) (omega arith) end before (omega arith)
      ∙ (rw e))

-- `memcpy` between two stretches of which the target does not begin inside of the source copies the
-- bytes of the source, and changes no other.
pub memcpy_copies :
    (dest src count : ℕ) (m : ℕ → ℕ)
    → (dest ≤ src) ⊎ (src + count ≤ dest)
    → (a : ℕ)
    → memcpy dest src count m a ≡ (if within dest count a then m (src + (a - dest)) else m a)
unfolding memcpy
memcpy_copies dest src zero m apart a = ground arith
memcpy_copies dest src (suc count) m apart a =
    let shift : (dest + 1 ≤ src + 1) ⊎ (src + 1 + count ≤ dest + 1) = elim apart [
      | inl h ↦ inl (omega arith)
      | inr h ↦ inr (omega arith)
    ] in
    let rest = memcpy_copies (dest + 1) (src + 1) count (update m dest (m src)) shift a in
    elim (Bool-cases (a == dest)) [
      | inl e ↦
          let at : a ≡ dest = (==_iff a dest).0 e in
          let first : within dest (suc count) a ≡ true = ground arith in
          let later : within (dest + 1) count a ≡ false = ground arith in
          let here : src + (a - dest) ≡ src = omega arith in rest ∙ (rw (later, first, here, e))
      | inr ne ↦
          let same : within dest (suc count) a ≡ within (dest + 1) count a = ground arith in
          rest ∙ (rw same (copied ne))
    ]
  where
    copied :
        (a == dest) ≡ false
        → (if within (dest + 1) count a
            then update m dest (m src) (src + 1 + (a - (dest + 1)))
            else update m dest (m src) a)
          ≡ (if within (dest + 1) count a then m (src + (a - dest)) else m a)
    copied ne = elim (Bool-cases (within (dest + 1) count a)) [
      | inr out ↦ rw (out, ne)
      | inl inside ↦
          let index : src + 1 + (a - (dest + 1)) ≡ src + (a - dest) = ground arith in
          let away : (src + (a - dest) == dest) ≡ false = ground arith in rw (inside, index, away)
    ]

pub memset_1bytes-IsFilled :
    (s c count : ℕ) (m : ℕ → ℕ) → IsFilled s count (c % 256) m (memset_1bytes s c count m)
unfolding memset_1bytes
memset_1bytes-IsFilled s c zero m a = ground arith
memset_1bytes-IsFilled s c (suc count) m a =
    ground (arith, memset_1bytes-IsFilled (s + 1) c count (update m s (c % 256)) a)

-- The eight copies of the byte.
repeat_byte_lem : (c : ℕ) → repeat_byte c 0 8 0 ≡ c % 256 * 0x0101010101010101
unfolding repeat_byte
repeat_byte_lem c =
    let e0 : bit_or (c % 256 * 1) (0) ≡ c % 256 * 1 =
      omega (arith, or_disjoint 0 (c % 256) (0) (omega arith)) in
    let e1 : bit_or (c % 256 * 256) (c % 256 * 1) ≡ c % 256 * 257 =
      omega (arith, or_disjoint 8 (c % 256) (c % 256 * 1) (omega arith)) in
    let e2 : bit_or (c % 256 * 65536) (c % 256 * 257) ≡ c % 256 * 65793 =
      omega (arith, or_disjoint 16 (c % 256) (c % 256 * 257) (omega arith)) in
    let e3 : bit_or (c % 256 * 16777216) (c % 256 * 65793) ≡ c % 256 * 16843009 =
      omega (arith, or_disjoint 24 (c % 256) (c % 256 * 65793) (omega arith)) in
    let e4 : bit_or (c % 256 * 4294967296) (c % 256 * 16843009) ≡ c % 256 * 4311810305 =
      omega (arith, or_disjoint 32 (c % 256) (c % 256 * 16843009) (omega arith)) in
    let e5 : bit_or (c % 256 * 1099511627776) (c % 256 * 4311810305) ≡ c % 256 * 1103823438081 =
      omega (arith, or_disjoint 40 (c % 256) (c % 256 * 4311810305) (omega arith)) in
    let e6 : bit_or (c % 256 * 281474976710656) (c % 256 * 1103823438081)
        ≡ c % 256 * 282578800148737 =
      omega (arith, or_disjoint 48 (c % 256) (c % 256 * 1103823438081) (omega arith)) in
    let e7 : bit_or (c % 256 * 72057594037927936) (c % 256 * 282578800148737)
        ≡ c % 256 * 72340172838076673 =
      omega (arith, or_disjoint 56 (c % 256) (c % 256 * 282578800148737) (omega arith)) in
    rw (and_low_mask 8 c, e0, e1, e2, e3, e4, e5, e6, e7)

byte_of : (v k : ℕ) → v < 256 → k < 8 → v * 0x0101010101010101 / 2 ^ (8 * k) % 256 ≡ v
byte_of v zero h lt = omega arith
byte_of v (suc zero) h lt = omega arith
byte_of v (suc (suc zero)) h lt = omega arith
byte_of v (suc (suc (suc zero))) h lt = omega arith
byte_of v (suc (suc (suc (suc zero)))) h lt = omega arith
byte_of v (suc (suc (suc (suc (suc zero))))) h lt = omega arith
byte_of v (suc (suc (suc (suc (suc (suc zero)))))) h lt = omega arith
byte_of v (suc (suc (suc (suc (suc (suc (suc zero))))))) h lt = omega arith
byte_of v (suc (suc (suc (suc (suc (suc (suc (suc n)))))))) h lt = absurd (omega arith)

store64-IsFilled :
    (p v : ℕ) (m : ℕ → ℕ) → v < 256 → IsFilled p 8 v m (store64 p (v * 0x0101010101010101) m)
unfolding store64
store64-IsFilled p v m h a = elim (Bool-cases (ltb a p)) [
  | inl low ↦ rw low (ground arith)
  | inr high ↦ elim (Bool-cases (ltb a (p + 8))) [
    | inr above ↦ rw (high, above) (ground arith)
    | inl inside ↦
        let lo : p ≤ a = ltb→le a p high in
        let hi : a < p + 8 = ltb→lt a (p + 8) inside in
        let in_range : leb p a ≡ true = ground arith in
        rw (high, inside, in_range, byte_of v (a - p) h (omega arith))
  ]
]

-- Two adjacent stretches are one.
pub IsFilled-join :
    (s a b v : ℕ) (m t u : ℕ → ℕ)
    → IsFilled s a v m t
    → IsFilled (s + a) b v t u
    → IsFilled s (a + b) v m u
IsFilled-join s a b v m t u f g q = ground (arith, f q, g q)

abbrev pair : (p c : ℕ) → (ℕ → ℕ) → ℕ → ℕ
pair p c m = store64 (p + 8) (repeat_byte c 0 8 0) (store64 p (repeat_byte c 0 8 0) m)

pair-IsFilled : (p c : ℕ) (m : ℕ → ℕ) → IsFilled p 16 (c % 256) m (pair p c m)
pair-IsFilled p c m = rw (repeat_byte_lem c) (
    IsFilled-join p 8 8 (c % 256) m (store64 p (c % 256 * 0x0101010101010101) m) _
      (store64-IsFilled p (c % 256) m (omega arith))
      (store64-IsFilled (p + 8) (c % 256) (store64 p (c % 256 * 0x0101010101010101) m)
        (omega arith)))

last_round :
    (fuel p v count i : ℕ) (m : ℕ → ℕ)
    → (i + 16) % 2 ^ 32 ≡ count
    → memset_16bytes (suc fuel) p v count i m ≡ some (store64 (p + 8) v (store64 p v m))
unfolding memset_16bytes
last_round fuel p v count i m e =
    let stop : ((i + 16) % 2 ^ 32 == count) ≡ true = ground arith in rw stop

more_rounds :
    (fuel p v count i : ℕ) (m : ℕ → ℕ)
    → i + 16 < count
    → count < 2 ^ 31
    → memset_16bytes (suc fuel) p v count i m
      ≡ memset_16bytes fuel (p + 16) v count (i + 16) (store64 (p + 8) v (store64 p v m))
unfolding memset_16bytes
more_rounds fuel p v count i m lt small =
    let wrap : (i + 16) % 2 ^ 32 ≡ i + 16 = omega arith in
    let go : (i + 16 == count) ≡ false = ground arith in rw (wrap, go)

-- The loop of the assembly ends, and fills a whole number of 16 bytes, one at least.
pub memset_16bytes-IsFilled :
    (fuel p c count i n : ℕ) (m : ℕ → ℕ)
    → count ≡ i + 16 * (n + 1)
    → count < 2 ^ 31
    → n < fuel
    → (t : ℕ → ℕ) × (memset_16bytes fuel p (repeat_byte c 0 8 0) count i m ≡ some t)
      × IsFilled p (16 * (n + 1)) (c % 256) m t
memset_16bytes-IsFilled zero p c count i n m e small enough = absurd (omega arith)
memset_16bytes-IsFilled (suc fuel) p c count i zero m e small enough = (
  pair p c m,
  last_round fuel p (repeat_byte c 0 8 0) count i m (omega arith),
  pair-IsFilled p c m,
)
memset_16bytes-IsFilled (suc fuel) p c count i (suc n) m e small enough =
    let (t, runs, f) =
      memset_16bytes-IsFilled fuel (p + 16) c count (i + 16) n (pair p c m) (omega arith) small
        (omega arith) in
    let sum : 16 * (suc n + 1) ≡ 16 + 16 * (n + 1) = omega arith in
    (
      t,
      more_rounds fuel p (repeat_byte c 0 8 0) count i m (omega arith) (omega arith) ∙ runs,
      rw sum (IsFilled-join p 16 (16 * (n + 1)) (c % 256) m (pair p c m) t (pair-IsFilled p c m) f),
    )
