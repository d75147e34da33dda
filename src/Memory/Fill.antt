-- ===== src/Memory/Fill.antt =====
-- What `memset` fills.
use arm64os.Common.{
  ℕ, ◌+◌, ◌-◌, ◌*◌, ◌/◌, ◌%◌, ◌^◌, ◌≤◌, ◌<◌, ◌≡◌, arith, ◌∙◌, true, false, ltb, ◌==◌, Bool-cases,
  inl, inr, ==_iff, lt→ltb, le→ltb, ok, Returns,
}
use arm64os.Common.Bits.{and_low_mask}
use arm64os.Memory.{memset_1bytes, memset_aligned, memset}
use arm64os.Memory.Bytes.{IsFilled, IsFilled-join, memset_1bytes-IsFilled, memset_16bytes-IsFilled}

memset_aligned-IsFilled :
    (fuel p c left : ℕ) (m : ℕ → ℕ)
    → 16 < left
    → left < 2 ^ 31
    → left < fuel
    → Returns (memset_aligned fuel p c left m) (IsFilled p left (c % 256) m)
memset_aligned-IsFilled fuel p c left m many small enough =
    let n = left / 16 in
    let (t, runs, f) =
      memset_16bytes-IsFilled fuel p c (16 * n) 0 (n - 1) m (omega arith) (omega arith)
        (omega arith) in
    let whole : 16 * (n - 1 + 1) ≡ 16 * n = omega arith in
    let g : IsFilled p (16 * n) (c % 256) m t = rw whole at f in
    let big : ltb 16 left ≡ true = lt→ltb 16 left many in
    let fits : ltb (16 * n) (2 ^ 31) ≡ true = ground arith in
    elim (Bool-cases (left % 16 == 0)) [
      | inl none_left ↦
          let all : 16 * n ≡ left = ground arith in
          (t, unfold memset_aligned in rw (big, fits, runs, none_left), rw all at g)
      | inr some_left ↦
          let all : 16 * n + left % 16 ≡ left = omega arith in
          let u = memset_1bytes (p + 16 * n) c (left % 16) t in
          let h : IsFilled p (16 * n + left % 16) (c % 256) m u =
            IsFilled-join p (16 * n) (left % 16) (c % 256) m t u g
              (memset_1bytes-IsFilled (p + 16 * n) c (left % 16) t) in
          (u, unfold memset_aligned in rw (big, fits, runs, some_left), rw all at h)
    ]

memset_aligned-short :
    (fuel p c left : ℕ) (m : ℕ → ℕ) → left ≤ 16 → memset_aligned fuel p c left m ≡ ok m
memset_aligned-short fuel p c left m few =
    let small : ltb 16 left ≡ false = le→ltb 16 left few in unfold memset_aligned in rw small

memset_parts :
    (fuel s c count : ℕ) (m : ℕ → ℕ)
    → s % 16 ≤ count
    → count < 2 ^ 32
    → memset fuel s c count m
      ≡ memset_aligned fuel (s + s % 16) c (count - s % 16) (memset_1bytes s c (s % 16) m)
unfolding memset
memset_parts fuel s c count m le small = elim (Bool-cases (s % 16 == 0)) [
  | inl aligned ↦
      let e : s % 16 ≡ 0 = (==_iff (s % 16) 0).0 aligned in
      let a : s + 0 ≡ s = omega arith in
      let b : count - 0 ≡ count = omega arith in
      rw (and_low_mask 4 s, e) (unfold memset_1bytes in rw (a, b))
  | inr odd ↦
      let wrap : (count + 2 ^ 32 - s % 16) % 2 ^ 32 ≡ count - s % 16 = omega arith in
      rw (and_low_mask 4 s, odd, wrap)
]

-- `memset` ends, and sets the bytes that it is asked to set to the lowest byte of `c`, and no others, if
-- they are more than 16 beyond those by which the address exceeds a multiple of 16, and fewer than
-- 2 ^ 31.
pub memset-IsFilled :
    (fuel s c count : ℕ) (m : ℕ → ℕ)
    → s % 16 + 16 < count
    → count < 2 ^ 31
    → count < fuel
    → Returns (memset fuel s c count m) (IsFilled s count (c % 256) m)
memset-IsFilled fuel s c count m many small enough =
    let k = s % 16 in
    let m1 = memset_1bytes s c k m in
    let (t, runs, f) =
      memset_aligned-IsFilled fuel (s + k) c (count - k) m1 (omega arith) (omega arith)
        (omega arith) in
    let all : k + (count - k) ≡ count = omega arith in
    let g : IsFilled s (k + (count - k)) (c % 256) m t =
      IsFilled-join s k (count - k) (c % 256) m m1 t (memset_1bytes-IsFilled s c k m) f in
    (t, memset_parts fuel s c count m (omega arith) (omega arith) ∙ runs, rw all at g)

-- Of a stretch that is shorter than that, `memset` sets the bytes by which the address exceeds a
-- multiple of 16, and leaves the rest, up to 16 bytes, as they were: all of it, if the address is a
-- multiple of 16.
pub memset_short :
    (fuel s c count : ℕ) (m : ℕ → ℕ)
    → s % 16 ≤ count
    → count ≤ s % 16 + 16
    → Returns (memset fuel s c count m) (IsFilled s (s % 16) (c % 256) m)
memset_short fuel s c count m le few = (
  memset_1bytes s c (s % 16) m,
  memset_parts fuel s c count m le (omega arith)
      ∙ memset_aligned-short fuel (s + s % 16) c (count - s % 16) (memset_1bytes s c (s % 16) m)
          (omega arith),
  memset_1bytes-IsFilled s c (s % 16) m,
)
