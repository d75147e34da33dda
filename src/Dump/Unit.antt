-- ===== src/Dump/Unit.antt =====
-- The unit of a size in the dump.
use arm64os.Common.{
  ℕ, zero, suc, ◌+◌, ◌*◌, ◌/◌, ◌%◌, ◌^◌, ◌<◌, ◌≡◌, ◌≢◌, inl, inr, some, none, arith, refl, ◌∙◌,
  Bool-cases, ◌==◌, true, false, bit_and,
}
use arm64os.Common.Bits.{and_low_mask}
use arm64os.Dump.Lines.{scale}

-- `d` with the unit that lies `j` places further in "KMGT".
abbrev pub kilos : (j d : ℕ) → ℕ
kilos zero d = d
kilos (suc j) d = 1024 * kilos j d

-- `d` and `u` stand for the size `delta` in the unit `unit`, with no smaller `d`.
pub record IsScaled (delta unit d u : ℕ) : Type 0 where
  pub steps : ℕ
  pub exact : delta ≡ kilos steps d
  pub last : d % 1024 ≢ 0
  pub moved : u ≡ unit + steps

scale_step :
    (fuel delta unit : ℕ)
    → (bit_and delta 1023 == 0) ≡ true
    → scale (suc fuel) delta unit ≡ scale fuel (delta / 2 ^ 10) (unit + 1)
unfolding scale
scale_step fuel delta unit h = rw h

scale_stop :
    (fuel delta unit : ℕ)
    → (bit_and delta 1023 == 0) ≡ false
    → scale (suc fuel) delta unit ≡ some (delta, unit)
unfolding scale
scale_stop fuel delta unit h = rw h

-- The loop of `print_pgtable` never ends for a size below 1 KB: its guard on the end of the units tests
-- a character that does not change.
pub scale-zero : (fuel unit : ℕ) → scale fuel 0 unit ≡ none
unfolding scale
scale-zero zero unit = refl
scale-zero (suc fuel) unit = scale-zero fuel (unit + 1)

-- For any other size it ends, in the largest unit that leaves a whole number, and the number and its
-- unit are the size. One round more than the units that the size can take is enough.
pub scale-IsScaled :
    (fuel delta unit k : ℕ)
    → delta ≢ 0
    → delta < kilos k 1
    → k < fuel
    → (d : ℕ) × (u : ℕ) × (scale fuel delta unit ≡ some (d, u))
      × IsScaled delta unit d u
      × (u < unit + k)
scale-IsScaled zero delta unit k ne small enough = absurd (omega arith)
scale-IsScaled (suc fuel) delta unit zero ne small enough = absurd (omega (arith, small, ne))
scale-IsScaled (suc fuel) delta unit (suc k) ne small enough =
    let low = and_low_mask 10 delta in
    elim (Bool-cases (bit_and delta 1023 == 0)) [
      | inr stop ↦ (
        delta,
        unit,
        scale_stop fuel delta unit stop,
        record {
          steps = 0;
          exact = refl;
          last = λ z. ground (arith, z, low, stop);
          moved = omega arith;
        },
        omega arith,
      )
      | inl go ↦
          let even : delta % 1024 ≡ 0 = ground (arith, low, go) in
          let (d, u, runs, s, bound) =
            scale-IsScaled fuel (delta / 2 ^ 10) (unit + 1) k (omega (arith, even, ne))
              (omega (arith, small)) (omega (arith, enough)) in
          (
            d,
            u,
            scale_step fuel delta unit go ∙ runs,
            record {
              steps = suc s.steps;
              exact = omega (arith, s.exact, even);
              last = s.last;
              moved = omega (arith, s.moved);
            },
            omega (arith, bound),
          )
    ]
