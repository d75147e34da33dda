-- ===== src/Cache/Levels.antt =====
-- The levels of caches that `init_cache_info` counts, and the sizes that it prints.
use arm64os.Common.{
  ℕ, zero, suc, ◌+◌, ◌-◌, ◌*◌, ◌/◌, ◌%◌, ◌^◌, ◌<◌, ◌≤◌, ◌≡◌, ◌≢◌, ◌⊎◌, inl, inr, arith, refl, ap,
  sym, ◌∙◌, Bool-cases, ◌==◌, ==_iff, true, false, some, List, [], ◌∷◌, ◌++◌, ok, Returns,
  get_elem?, bit_and, ltb, if◌then◌else◌,
}
use Prim.Native.String.{String}
use mathlib.Core.Path.{subst}
use native.Mathlib.Nat.{one-le-pow, mul-div_cancel}
use arm64os.Common.Bits.{and_field, and_low_mask}
use arm64os.Common.Print.{PrintCall, say}
use arm64os.Cache.{
  CacheRegisters, csselr, clidr_ctype, cache_levels, get_cache_type, get_cache_set_way,
  init_cache_info, cache_type_string, icache_policy_str, cache_line_size, level_lines,
  max_cache_level,
}

type_name : (ctype : ℕ) → ctype < 5 → (s : String) × (get_elem? cache_type_string ctype ≡ some s)
type_name zero h = (_, refl)
type_name (suc zero) h = (_, refl)
type_name (suc (suc zero)) h = (_, refl)
type_name (suc (suc (suc zero))) h = (_, refl)
type_name (suc (suc (suc (suc zero)))) h = (_, refl)
type_name (suc (suc (suc (suc (suc n))))) h = absurd (omega (arith, h))

policy_name : (i : ℕ) → i < 4 → (s : String) × (get_elem? icache_policy_str i ≡ some s)
policy_name zero h = (_, refl)
policy_name (suc zero) h = (_, refl)
policy_name (suc (suc zero)) h = (_, refl)
policy_name (suc (suc (suc zero))) h = (_, refl)
policy_name (suc (suc (suc (suc n)))) h = absurd (omega (arith, h))

-- The type of the cache of a level in the register, three bits for each level from 1 to 7.
abbrev pub type_bits : CacheRegisters → ℕ → ℕ
type_bits r j = r.clidr_el1 / 2 ^ (3 * (j - 1)) % 8

-- `n` counts the levels with a cache from `level` on up to the first without one, level `n + 1`; or all
-- up to level 7 have one, and `n` is 8.
abbrev pub IsLast : CacheRegisters → (level n : ℕ) → Type 0
IsLast r level n =
    ((n < 7) × (type_bits r (n + 1) ≡ 0) × ((j : ℕ) → level ≤ j → j ≤ n → type_bits r j ≢ 0))
    ⊎ ((n ≡ 8) × ((j : ℕ) → level ≤ j → j ≤ 7 → type_bits r j ≢ 0))

get_cache_type_bits : (r : CacheRegisters) (j : ℕ) → j ≤ 7 → get_cache_type r j ≡ type_bits r j
unfolding get_cache_type clidr_ctype
get_cache_type_bits r j h =
    let low : ltb max_cache_level j ≡ false = ground (arith, h) in
    let shift = 3 * (j - 1) in
    rw (low, and_field 3 shift r.clidr_el1)
      (mul-div_cancel (type_bits r j) (one-le-pow shift 2 (omega arith)))

levels_stop :
    (r : CacheRegisters) (left level : ℕ)
    → (get_cache_type r level == 0) ≡ true
    → cache_levels r (suc left) level ≡ ok (level - 1, [])
unfolding cache_levels
levels_stop r left level h = rw h

levels_more :
    (r : CacheRegisters) (left level n : ℕ) (s : String) (lines : List PrintCall)
    → (get_cache_type r level == 0) ≡ false
    → get_elem? cache_type_string (get_cache_type r level) ≡ some s
    → cache_levels r left (level + 1) ≡ ok (n, lines)
    → cache_levels r (suc left) level
      ≡ ok (
        n,
        say "   L%u: %s, cache line size %u\n" (level ∷ cache_line_size r ∷ []) (s ∷ [])
            ∷ (level_lines r level (get_cache_type r level) ++ lines),
      )
unfolding cache_levels
levels_more r left level n s lines h e f = rw (h, e, f)

levels_end : (r : CacheRegisters) (level : ℕ) → cache_levels r zero level ≡ ok (level, [])
unfolding cache_levels
levels_end r level = refl

-- A level with a cache, before the levels of which `n` is the last.
also :
    (r : CacheRegisters) (level j : ℕ)
    → type_bits r level ≢ 0
    → level ≤ j
    → (level + 1 ≤ j → type_bits r j ≢ 0)
    → type_bits r j ≢ 0
also r level j this from rest = elim (Bool-cases (j == level)) [
  | inl same ↦ λ no_cache. this (ap (type_bits r) (sym ((==_iff j level).0 same)) ∙ no_cache)
  | inr other ↦ rest (ground (arith, other, from))
]

before-IsLast :
    (r : CacheRegisters) (level n : ℕ)
    → type_bits r level ≢ 0
    → IsLast r (level + 1) n
    → IsLast r level n
before-IsLast r level n this (inl (few, stops, rest)) =
    inl (few, stops, λ j from to. also r level j this from (λ from'. rest j from' to))
before-IsLast r level n this (inr (all, rest)) =
    inr (all, λ j from to. also r level j this from (λ from'. rest j from' to))

cache_levels-IsLast :
    (r : CacheRegisters) (left level : ℕ)
    → ((j : ℕ) → 1 ≤ j → j ≤ 7 → type_bits r j < 5)
    → level + left ≡ 8
    → 1 ≤ level
    → Returns (cache_levels r left level) (λ out. IsLast r level out.0)
cache_levels-IsLast r zero level known at_end first = (
  (level, []),
  levels_end r level,
  inr (omega (arith, at_end), λ j from to. absurd (omega (arith, at_end, from, to))),
)
cache_levels-IsLast r (suc left) level known at_end first =
    let here = get_cache_type_bits r level (omega (arith, at_end)) in
    elim (Bool-cases (get_cache_type r level == 0)) [
      | inl stop ↦
          let back : level - 1 + 1 ≡ level = omega (arith, first) in
          (
            (level - 1, []),
            levels_stop r left level stop,
            inl (
              omega (arith, at_end, first),
              ap (type_bits r) back ∙ sym here ∙ (==_iff (get_cache_type r level) 0).0 stop,
              λ j from to. absurd (omega (arith, first, from, to)),
            ),
          )
      | inr more ↦
          let few : get_cache_type r level < 5 =
            omega (arith, here, known level first (omega (arith, at_end))) in
          let (s, e) = type_name (get_cache_type r level) few in
          let ((n, lines), runs, last) =
            cache_levels-IsLast r left (level + 1) known (omega (arith, at_end)) (omega arith) in
          (
            _,
            levels_more r left level n s lines more e runs,
            before-IsLast r level n (ground (arith, more, here)) last,
          )
    ]

info_lem :
    (r : CacheRegisters) (n : ℕ) (lines : List PrintCall)
    → cache_levels r max_cache_level 1 ≡ ok (n, lines)
    → Returns (init_cache_info r) (λ out. out.0 ≡ n)
unfolding init_cache_info
info_lem r n lines runs =
    let i = bit_and ((r.ctr_el0 % 2 ^ 32) / 2 ^ 14) 3 in
    let small : i < 4 = omega (arith, and_low_mask 2 ((r.ctr_el0 % 2 ^ 32) / 2 ^ 14)) in
    let (s, e) = policy_name i small in rw (runs, e) (_, refl, refl)

-- Where the bits of no level hold a reserved type, `init_cache_info` comes to its end. Where level `n + 1`
-- is the first whose type bits are 0, it returns `n`; where the bits of none of the seven levels are 0,
-- it returns 8, one more than there are levels.
pub init_cache_info-IsLast :
    (r : CacheRegisters)
    → ((j : ℕ) → 1 ≤ j → j ≤ 7 → type_bits r j < 5)
    → Returns (init_cache_info r) (λ out. IsLast r 1 out.0)
init_cache_info-IsLast r known =
    let ((n, lines), runs, last) = cache_levels-IsLast r 7 1 known refl (omega arith) in
    let (out, returns, same) = info_lem r n lines runs in
    (out, returns, subst (IsLast r 1) (sym same) last)

-- `get_cache_set_way` prints the sets, the ways, the bytes of a line and the size in KB that the cache
-- size register tells of a cache of less than 4 GB with up to 8192 sets.
pub get_cache_set_way-geometry :
    (r : CacheRegisters) (level ind sets ways line : ℕ)
    → 1 ≤ sets
    → sets ≤ 2 ^ 13
    → 1 ≤ ways
    → ways ≤ 2 ^ 10
    → line < 8
    → 2 ^ (line + 4) * ways * sets < 2 ^ 32
    → r.ccsidr_el1 (csselr level ind) ≡ (sets - 1) * 2 ^ 13 + (ways - 1) * 2 ^ 3 + line
    → get_cache_set_way r level ind
      ≡ say "          %s: set %u way %u line_size %u size %uKB\n"
          (sets ∷ ways ∷ 2 ^ (line + 4) ∷ (2 ^ (line + 4) * ways * sets) / 1024 ∷ [])
          ((if ind == 0 then "d/u cache" else "i-cache") ∷ [])
unfolding get_cache_set_way
get_cache_set_way-geometry r level ind sets ways line s s' w w' l fits e =
    let v = (sets - 1) * 2 ^ 13 + (ways - 1) * 2 ^ 3 + line in
    let set : bit_and v (0x1fff * 2 ^ 13) / 2 ^ 13 + 1 ≡ sets =
      omega (arith, and_field 13 13 v, s, s', w, w', l) in
    let way : bit_and v (0x3ff * 2 ^ 3) / 2 ^ 3 + 1 ≡ ways =
      omega (arith, and_field 10 3 v, s, s', w, w', l) in
    let low : bit_and v 7 ≡ line = omega (arith, and_low_mask 3 v, l) in
    let small : (2 ^ (line + 4) * ways * sets) % 2 ^ 32 ≡ 2 ^ (line + 4) * ways * sets =
      omega (arith, fits) in
    rw (e, set, way, low, small)
