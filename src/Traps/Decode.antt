-- ===== src/Traps/Decode.antt =====
-- What `parse_esr` prints of a syndrome, by the fields that the architecture gives it.
use Prim.Native.String.{String}
use arm64os.Common.{
  ℕ, ◌+◌, ◌*◌, ◌/◌, ◌%◌, ◌^◌, ◌<◌, ◌≡◌, arith, refl, ◌∙◌, Bool, Option, none, some, ltb, lt→ltb,
  ◌==◌, ◌||◌, List, [], ◌∷◌, ◌++◌, if◌then◌else◌, bit_and, ok, fault, Bool-cases, inl, inr,
}
use arm64os.Common.Bits.{and_field, and_low_mask}
use arm64os.Common.Print.{PrintCall, say}
use arm64os.Traps.{
  name_of, esr_class_str, data_fault_code, text_or_null, field, parse_esr, esr_get_class_string,
  esr_get_dfsc_string, parse_data_abort, abort_lines, parse_access,
}

-- The fields of a syndrome, those of a data abort for the lower 25 bits.
pub record Syndrome : Type 0 where
  pub ec : ℕ
  pub il : ℕ
  pub isv : ℕ
  pub sas : ℕ
  pub sse : ℕ
  pub srt : ℕ
  pub sf : ℕ
  pub ar : ℕ
  pub set : ℕ
  pub fnv : ℕ
  pub ea : ℕ
  pub cm : ℕ
  pub s1ptw : ℕ
  pub wnr : ℕ
  pub dfsc : ℕ

pub record IsSyndrome (f : Syndrome) : Type 0 where
  pub ec : f.ec < 64
  pub il : f.il < 2
  pub isv : f.isv < 2
  pub sas : f.sas < 4
  pub sse : f.sse < 2
  pub srt : f.srt < 32
  pub sf : f.sf < 2
  pub ar : f.ar < 2
  pub set : f.set < 4
  pub fnv : f.fnv < 2
  pub ea : f.ea < 2
  pub cm : f.cm < 2
  pub s1ptw : f.s1ptw < 2
  pub wnr : f.wnr < 2
  pub dfsc : f.dfsc < 64

-- The low 14 bits, the eleven above them, and the whole.
abbrev pub status_bits : Syndrome → ℕ
status_bits f =
    f.set * 2 ^ 11
    + f.fnv * 2 ^ 10
    + f.ea * 2 ^ 9
    + f.cm * 2 ^ 8
    + f.s1ptw * 2 ^ 7
    + f.wnr * 2 ^ 6
    + f.dfsc

abbrev pub access_bits : Syndrome → ℕ
access_bits f = f.isv * 2 ^ 10 + f.sas * 2 ^ 8 + f.sse * 2 ^ 7 + f.srt * 2 ^ 2 + f.sf * 2 + f.ar

abbrev pub encode : Syndrome → ℕ
encode f = (f.ec * 2 + f.il) * 2 ^ 25 + access_bits f * 2 ^ 14 + status_bits f

abbrev pub class_name : Option String → String
class_name none = "UNRECOGNIZED EC"
class_name (some s) = s

abbrev pub access_of : Syndrome → List PrintCall
access_of f =
    say "  Access size = %u byte(s)\n" (2 ^ f.sas ∷ []) []
    ∷ say "  SSE = %lu, SRT = %lu\n" (f.sse ∷ f.srt ∷ []) []
    ∷ say "  SF = %lu, AR = %lu\n" (f.sf ∷ f.ar ∷ []) []
    ∷ []

abbrev pub abort_of : Syndrome → List PrintCall
abort_of f =
    say "  Data abort:\n" [] []
    ∷ ((if f.isv == 0 then [] else access_of f)
        ++ (say "  SET = %lu, FnV = %lu\n" (f.set ∷ f.fnv ∷ []) []
            ∷ say "  EA = %lu, S1PTW = %lu\n" (f.ea ∷ f.s1ptw ∷ []) []
            ∷ say "  CM = %lu, WnR = %lu\n" (f.cm ∷ f.wnr ∷ []) []
            ∷ say "  DFSC = %s\n" [] (text_or_null (name_of f.dfsc data_fault_code) ∷ [])
            ∷ []))

abbrev pub head_at : (esr : ℕ) → Syndrome → List PrintCall
head_at esr f =
    say "ESR info:\n" [] []
    ∷ say "  ESR = 0x%08x\n" (esr ∷ []) []
    ∷ say "  Exception class = %s, IL = %u bits\n" ((if f.il == 0 then 16 else 32) ∷ [])
        (class_name (name_of f.ec esr_class_str) ∷ [])
    ∷ []

abbrev pub is_data_abort : ℕ → Bool
is_data_abort ec = ec == 0x24 || ec == 0x25

-- Each part of a word that is put together so.
record Fields (f : Syndrome) (x : ℕ) : Type 0 where
  ec : x / 2 ^ 26 ≡ f.ec
  il : x / 2 ^ 25 % 2 ≡ f.il
  isv : x / 2 ^ 24 % 2 ≡ f.isv
  sas : x / 2 ^ 22 % 4 ≡ f.sas
  sse : x / 2 ^ 21 % 2 ≡ f.sse
  srt : x / 2 ^ 16 % 32 ≡ f.srt
  sf : x / 2 ^ 15 % 2 ≡ f.sf
  ar : x / 2 ^ 14 % 2 ≡ f.ar
  set : x / 2 ^ 11 % 4 ≡ f.set
  fnv : x / 2 ^ 10 % 2 ≡ f.fnv
  ea : x / 2 ^ 9 % 2 ≡ f.ea
  cm : x / 2 ^ 8 % 2 ≡ f.cm
  s1ptw : x / 2 ^ 7 % 2 ≡ f.s1ptw
  wnr : x / 2 ^ 6 % 2 ≡ f.wnr
  dfsc : x % 64 ≡ f.dfsc

encode-Fields : (f : Syndrome) → IsSyndrome f → Fields f (encode f)
encode-Fields f h = omega (arith, h)

module _ (f : Syndrome) (x : ℕ) (p : Fields f x) where
  access_lem : parse_access x ≡ access_of f
  unfolding parse_access
  access_lem =
      let sas : field x 3 22 ≡ f.sas = omega (arith, and_field 2 22 x, p.sas) in
      let sse : field x 1 21 ≡ f.sse = omega (arith, and_field 1 21 x, p.sse) in
      let srt : field x 0x1f 16 ≡ f.srt = omega (arith, and_field 5 16 x, p.srt) in
      let sf : field x 1 15 ≡ f.sf = omega (arith, and_field 1 15 x, p.sf) in
      let ar : field x 1 14 ≡ f.ar = omega (arith, and_field 1 14 x, p.ar) in
      rw (sas, sse, srt, sf, ar)

  abort_lines_lem : abort_lines x (text_or_null (name_of f.dfsc data_fault_code)) ≡ abort_of f
  unfolding abort_lines
  abort_lines_lem =
      let isv : (bit_and x (2 ^ 24) == 0) ≡ (f.isv == 0) =
        ground (arith, and_field 1 24 x, p.isv) in
      let set : bit_and (x / 2 ^ 11) 3 ≡ f.set = and_low_mask 2 (x / 2 ^ 11) ∙ p.set in
      let fnv : bit_and (x / 2 ^ 10) 1 ≡ f.fnv = and_low_mask 1 (x / 2 ^ 10) ∙ p.fnv in
      let ea : bit_and (x / 2 ^ 9) 1 ≡ f.ea = and_low_mask 1 (x / 2 ^ 9) ∙ p.ea in
      let s1ptw : bit_and (x / 2 ^ 7) 1 ≡ f.s1ptw = and_low_mask 1 (x / 2 ^ 7) ∙ p.s1ptw in
      let cm : field x 1 8 ≡ f.cm = omega (arith, and_field 1 8 x, p.cm) in
      let wnr : field x 1 6 ≡ f.wnr = omega (arith, and_field 1 6 x, p.wnr) in
      rw (isv, set, fnv, ea, s1ptw, cm, wnr, access_lem)

  class_lem : f.ec < 64 → esr_get_class_string x ≡ ok (class_name (name_of f.ec esr_class_str))
  unfolding esr_get_class_string
  class_lem small = rw (p.ec, lt→ltb f.ec 64 small) (named (name_of f.ec esr_class_str))
    where
      named :
          (o : Option String)
          → (elim o [ none ↦ ok "UNRECOGNIZED EC" | some s ↦ ok s ]) ≡ ok (class_name o)
      named none = refl
      named (some s) = refl

  dfsc_lem :
      esr_get_dfsc_string x
      ≡ (if ltb f.dfsc 0x36 then ok (name_of f.dfsc data_fault_code) else fault)
  unfolding esr_get_dfsc_string
  dfsc_lem = let low : bit_and x 0x3f ≡ f.dfsc = and_low_mask 6 x ∙ p.dfsc in rw low

  abort_lem : parse_data_abort x ≡ (if ltb f.dfsc 0x36 then ok (abort_of f) else fault)
  unfolding parse_data_abort
  abort_lem = elim (Bool-cases (ltb f.dfsc 0x36)) [
    | inl known ↦ rw (dfsc_lem, known, abort_lines_lem)
    | inr unknown ↦ rw (dfsc_lem, unknown)
  ]

  parse_fields :
      f.ec < 64
      → parse_esr x ≡ (
          if is_data_abort f.ec
          then (if ltb f.dfsc 0x36 then ok (head_at x f ++ abort_of f) else fault)
          else ok (head_at x f))
  unfolding parse_esr
  parse_fields small =
      let ec : field x 0x3f 26 ≡ f.ec = omega (arith, and_field 6 26 x, p.ec, small) in
      let il : (bit_and x (2 ^ 25) == 0) ≡ (f.il == 0) = ground (arith, and_field 1 25 x, p.il) in
      elim (Bool-cases (is_data_abort f.ec)) [
        | inr other ↦ rw (class_lem small, ec, il, other)
        | inl abort ↦ elim (Bool-cases (ltb f.dfsc 0x36)) [
          | inl known ↦ rw (class_lem small, ec, il, abort, abort_lem, known)
          | inr unknown ↦ rw (class_lem small, ec, il, abort, abort_lem, unknown)
        ]
      ]

-- `parse_esr` prints the fields of the syndrome: its class by name and the length of the instruction,
-- and for a data abort the fields of its status, those of the access where they are valid. A data abort
-- whose status code is 0x36 or above makes it read behind the table of the texts.
pub parse_esr-encode :
    (f : Syndrome)
    → IsSyndrome f
    → parse_esr (encode f) ≡ (
        if is_data_abort f.ec
        then (if ltb f.dfsc 0x36 then ok (head_at (encode f) f ++ abort_of f) else fault)
        else ok (head_at (encode f) f))
parse_esr-encode f h = parse_fields f (encode f) (encode-Fields f h) h.ec
