-- ===== src/Tests/Reports.antt =====
-- Tests of arch/arm64/kernel/traps.c, for a write that the processor took a permission fault for, and of
-- arch/arm64/kernel/cacheinfo.c, for a processor with two levels of caches.
use arm64os.Common.{
  ℕ, zero, suc, ◌+◌, ◌*◌, ◌<◌, ◌≤◌, ◌≡◌, arith, refl, [], ◌∷◌, ◌++◌, ◌==◌, if◌then◌else◌, ok,
  Returns,
}
use arm64os.Common.Print.{say}
use arm64os.Traps.{parse_esr, esr_get_class_string}
use arm64os.Traps.Decode.{Syndrome, IsSyndrome, head_at, abort_of, encode, parse_esr-encode}
use arm64os.Cache.{CacheRegisters, get_cache_set_way, init_cache_info}
use arm64os.Cache.Levels.{IsLast, type_bits, init_cache_info-IsLast, get_cache_set_way-geometry}

abbrev write_fault : Syndrome
write_fault = record {
  ec = 0x25;
  il = 1;
  isv = 1;
  sas = 3;
  sse = 0;
  srt = 2;
  sf = 1;
  ar = 0;
  set = 0;
  fnv = 0;
  ea = 0;
  cm = 0;
  s1ptw = 0;
  wnr = 1;
  dfsc = 15;
}

write_fault-IsSyndrome : IsSyndrome write_fault
write_fault-IsSyndrome = record {
  ec = omega arith;
  il = omega arith;
  isv = omega arith;
  sas = omega arith;
  sse = omega arith;
  srt = omega arith;
  sf = omega arith;
  ar = omega arith;
  set = omega arith;
  fnv = omega arith;
  ea = omega arith;
  cm = omega arith;
  s1ptw = omega arith;
  wnr = omega arith;
  dfsc = omega arith;
}

parse_esr-encode_example :
    parse_esr (encode write_fault)
    ≡ ok (head_at (encode write_fault) write_fault ++ abort_of write_fault)
parse_esr-encode_example = parse_esr-encode write_fault write_fault-IsSyndrome

write_fault_name : esr_get_class_string (encode write_fault) ≡ ok "DABT (current EL)"
unfolding esr_get_class_string
write_fault_name = refl

-- Separate caches on level 1, a unified one on level 2.
abbrev two_levels : CacheRegisters
two_levels = record {
  clidr_el1 = 35;
  ctr_el0 = 0;
  ccsidr_el1 = λ i. if i == 1 then 255 * 8192 + 2 * 8 + 2 else 1023 * 8192 + 15 * 8 + 2;
}

two_levels_known : (j : ℕ) → 1 ≤ j → j ≤ 7 → type_bits two_levels j < 5
two_levels_known zero h l = absurd (omega (arith, h))
two_levels_known (suc zero) h l = omega arith
two_levels_known (suc (suc zero)) h l = omega arith
two_levels_known (suc (suc (suc zero))) h l = omega arith
two_levels_known (suc (suc (suc (suc zero)))) h l = omega arith
two_levels_known (suc (suc (suc (suc (suc zero))))) h l = omega arith
two_levels_known (suc (suc (suc (suc (suc (suc zero)))))) h l = omega arith
two_levels_known (suc (suc (suc (suc (suc (suc (suc zero))))))) h l = omega arith
two_levels_known (suc (suc (suc (suc (suc (suc (suc (suc n)))))))) h l = absurd (omega (arith, l))

init_cache_info-IsLast_example :
    Returns (init_cache_info two_levels) (λ out. IsLast two_levels 1 out.0)
init_cache_info-IsLast_example = init_cache_info-IsLast two_levels two_levels_known

get_cache_set_way-geometry_example :
    get_cache_set_way two_levels 1 1
    ≡ say "          %s: set %u way %u line_size %u size %uKB\n"
        (256 ∷ 3 ∷ 64 ∷ 48 ∷ [])
        ("i-cache" ∷ [])
get_cache_set_way-geometry_example =
    get_cache_set_way-geometry two_levels 1 1 256 3 2 (omega arith) (omega arith) (omega arith)
      (omega arith) (omega arith) (omega arith) refl
