-- ===== src/Memory.antt =====
-- lib/string.c: bytes in memory, a function from the address. The addresses that a call touches are
-- taken to lie below 2 ^ 64; `size_t` is an `unsigned int` here.
pub mod Bytes
pub mod Fill
use arm64os.Common.{
  ℕ, zero, suc, ◌+◌, ◌-◌, ◌*◌, ◌/◌, ◌%◌, ◌^◌, ltb, ◌==◌, if◌then◌else◌, update, bit_and, bit_or,
  Option, none, some, Result, ok, fault, ◌>>=◌, ended,
}

-- The loop of `strlen` at `sc`, on fuel.
unfoldable pub strlen_loop : ℕ → (s sc : ℕ) → (ℕ → ℕ) → Option ℕ
strlen_loop zero s sc m = none
strlen_loop (suc fuel) s sc m =
    let rest = strlen_loop fuel s (sc + 1) m in if m sc == 0 then some ((sc - s) % 2 ^ 32) else rest

unfoldable pub strlen : (fuel s : ℕ) → (ℕ → ℕ) → Option ℕ
unfolding strlen_loop
strlen fuel s m = strlen_loop fuel s s m

unfoldable pub memcpy : (dest src count : ℕ) → (ℕ → ℕ) → ℕ → ℕ
memcpy dest src zero m = m
memcpy dest src (suc count) m = memcpy (dest + 1) (src + 1) count (update m dest (m src))

-- `__memset_1bytes`. Of `c`, an `int`, the lowest byte counts.
unfoldable pub memset_1bytes : (s c count : ℕ) → (ℕ → ℕ) → ℕ → ℕ
memset_1bytes s c zero m = m
memset_1bytes s c (suc count) m = memset_1bytes (s + 1) c count (update m s (c % 256))

-- One register of `stp`: eight bytes, the lowest first.
unfoldable pub store64 : (p value : ℕ) → (ℕ → ℕ) → ℕ → ℕ
store64 p value m a =
    if ltb a p then m a else if ltb a (p + 8) then value / 2 ^ (8 * (a - p)) % 256 else m a

-- The loop of `__memset_16bytes_asm` at `i`, on fuel. It ends where `i` is equal to the count.
unfoldable pub memset_16bytes : ℕ → (p value count i : ℕ) → (ℕ → ℕ) → Option (ℕ → ℕ)
unfolding store64
memset_16bytes zero p value count i m = none
memset_16bytes (suc fuel) p value count i m =
    let stored = store64 (p + 8) value (store64 p value m) in
    let j = (i + 16) % 2 ^ 32 in
    let rest = memset_16bytes fuel (p + 16) value count j stored in
    if j == count then some stored else rest

-- The loop that repeats the byte, at `i`, with `left` rounds to go.
unfoldable pub repeat_byte : (c i left value : ℕ) → ℕ
repeat_byte c i zero value = value
repeat_byte c i (suc left) value =
    repeat_byte c (i + 1) left (bit_or (bit_and c 0xff * 2 ^ (i * 8)) value)

-- The part of `__memset` behind the alignment. `16 * n` is an `int`: its overflow is a fault.
unfoldable pub memset_aligned : (fuel p c left : ℕ) → (ℕ → ℕ) → Result (ℕ → ℕ)
unfolding memset_16bytes repeat_byte memset_1bytes
memset_aligned fuel p c left m =
    let n = left / 16 in
    let filled = (do
      m1 ← ended (memset_16bytes fuel p (repeat_byte c 0 8 0) (16 * n) 0 m)
      ok (if left % 16 == 0 then m1 else memset_1bytes (p + 16 * n) c (left % 16) m1)) in
    if ltb 16 left then (if ltb (16 * n) (2 ^ 31) then filled else fault) else ok m

-- `memset`, with `__memset`.
unfoldable pub memset : (fuel s c count : ℕ) → (ℕ → ℕ) → Result (ℕ → ℕ)
unfolding memset_aligned memset_1bytes
memset fuel s c count m =
    let size = bit_and s 15 in
    if size == 0
    then memset_aligned fuel s c count m
    else memset_aligned fuel (s + size) c ((count + 2 ^ 32 - size) % 2 ^ 32)
        (memset_1bytes s c size m)
