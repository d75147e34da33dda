-- ===== src/Cache.antt =====
-- arch/arm64/kernel/cacheinfo.c: the caches of the processor, read from its registers. What is printed
-- is a list of calls of `printk`.
pub mod Levels
use Prim.Native.String.{String}
use arm64os.Common.{
  ℕ, zero, suc, ◌+◌, ◌-◌, ◌*◌, ◌/◌, ◌%◌, ◌^◌, ltb, ◌==◌, List, [], ◌∷◌, ◌++◌, if◌then◌else◌,
  bit_and, bit_or, Result, ok, ◌>>=◌, get_elem?, deref,
}
use arm64os.Common.Print.{PrintCall, say}

-- What the registers read: CCSIDR_EL1 by what was written to CSSELR_EL1.
pub record CacheRegisters : Type 0 where
  pub clidr_el1 : ℕ
  pub ctr_el0 : ℕ
  pub ccsidr_el1 : ℕ → ℕ

abbrev pub cache_type_nocache : ℕ
cache_type_nocache = 0

abbrev pub cache_type_separate : ℕ
cache_type_separate = bit_or 1 2

abbrev pub cache_type_unified : ℕ
cache_type_unified = 4

abbrev pub cache_type_string : List String
cache_type_string = "nocache" ∷ "i-cache" ∷ "d-cache" ∷ "separate cache" ∷ "unifed cache" ∷ []

abbrev pub icache_policy_str : List String
icache_policy_str = "VPIPT" ∷ "RESERVED/UNKNOWN" ∷ "VIPT" ∷ "PIPT" ∷ []

abbrev pub max_cache_level : ℕ
max_cache_level = 7

-- `cache_line_size`, with `cache_type_cwg`.
unfoldable pub cache_line_size : CacheRegisters → ℕ
cache_line_size r = 4 * 2 ^ bit_and (r.ctr_el0 / 2 ^ 24) 15

-- `CLIDR_CTYPE`
unfoldable pub clidr_ctype : (clidr level : ℕ) → ℕ
clidr_ctype clidr level = let shift = 3 * (level - 1) in bit_and clidr (7 * 2 ^ shift) / 2 ^ shift

unfoldable pub get_cache_type : CacheRegisters → (level : ℕ) → ℕ
unfolding clidr_ctype
get_cache_type r level =
    if ltb max_cache_level level then cache_type_nocache else clidr_ctype r.clidr_el1 level

-- What is written to CSSELR_EL1.
abbrev pub csselr : (level ind : ℕ) → ℕ
csselr level ind = bit_or ((level + 2 ^ 32 - 1) % 2 ^ 32 * 2 % 2 ^ 32) ind

unfoldable pub get_cache_set_way : CacheRegisters → (level ind : ℕ) → PrintCall
get_cache_set_way r level ind =
    let val = r.ccsidr_el1 (csselr level ind) in
    let set = bit_and val (0x1fff * 2 ^ 13) / 2 ^ 13 + 1 in
    let way = bit_and val (0x3ff * 2 ^ 3) / 2 ^ 3 + 1 in
    let line_size = 2 ^ (bit_and val 7 + 4) in
    say "          %s: set %u way %u line_size %u size %uKB\n"
      (set ∷ way ∷ line_size ∷ (line_size * way * set) % 2 ^ 32 / 1024 ∷ [])
      ((if ind == 0 then "d/u cache" else "i-cache") ∷ [])

-- What is printed of the caches of a level.
unfoldable pub level_lines : CacheRegisters → (level ctype : ℕ) → List PrintCall
unfolding get_cache_set_way
level_lines r level ctype =
    if ctype == cache_type_separate
    then get_cache_set_way r level 1 ∷ get_cache_set_way r level 0 ∷ []
    else if ctype == cache_type_unified
    then get_cache_set_way r level 0 ∷ []
    else []

-- The loop of `init_cache_info` at `level`, with `left` rounds to go: the level that is returned and
-- the lines. An index behind the names of the types is a fault.
unfoldable pub cache_levels : CacheRegisters → (left level : ℕ) → Result (ℕ × List PrintCall)
cache_levels r zero level = ok (level, [])
cache_levels r (suc left) level =
    let ctype = get_cache_type r level in
    let rest = cache_levels r left (level + 1) in
    if ctype == cache_type_nocache then ok (level - 1, []) else (do
      name ← deref (get_elem? cache_type_string ctype)
      (n, more) ← rest
      ok (
        n,
        say "   L%u: %s, cache line size %u\n" (level ∷ cache_line_size r ∷ []) (name ∷ [])
            ∷ (level_lines r level ctype ++ more),
      ))

unfoldable pub init_cache_info : CacheRegisters → Result (ℕ × List PrintCall)
init_cache_info r =
    let clidr = r.clidr_el1 % 2 ^ 32 in
    let ctr = r.ctr_el0 % 2 ^ 32 in
    do
      (n, lines) ← cache_levels r max_cache_level 1
      policy ← deref (get_elem? icache_policy_str (bit_and (ctr / 2 ^ 14) 3))
      ok (
        n,
        say "parse cache info:\n" [] []
            ∷ (lines
                ++ (say "   IBC:%u LOUU:%u LoC:%u LoUIS:%u\n"
                      (bit_and (clidr / 2 ^ 30) 7
                        ∷ bit_and (clidr / 2 ^ 27) 7
                        ∷ bit_and (clidr / 2 ^ 24) 7
                        ∷ bit_and (clidr / 2 ^ 21) 7
                        ∷ [])
                      []
                    ∷ say "   Detected %s I-cache\n" [] (policy ∷ [])
                    ∷ [])),
      )
