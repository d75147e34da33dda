-- ===== src/Traps.antt =====
-- arch/arm64/kernel/traps.c: the decoding of the exception syndrome, with the fields of
-- arch/arm64/include/asm/esr.h, and `bad_mode`. What is printed is a list of calls of `printk`.
pub mod Decode
use Prim.Native.String.{String}
use arm64os.Common.{
  ℕ, ◌-◌, ◌*◌, ◌/◌, ◌^◌, Option, none, some, ltb, leb, ◌==◌, ◌||◌, List, [], ◌∷◌, ◌++◌,
  if◌then◌else◌, bit_and, Result, ok, fault, ◌>>=◌, get_elem?, deref,
}
use arm64os.Common.Print.{PrintCall, say}
use arm64os.Common.Int.{ℤ, pos, negsuc}

abbrev pub bad_mode_handler : List String
bad_mode_handler = "Sync Abort" ∷ "IRQ" ∷ "FIQ" ∷ "SError" ∷ []

abbrev pub esr_class_str : List (ℕ × String)
esr_class_str =
    (0x00, "Unknown/Uncategorized")
    ∷ (0x01, "WFI/WFE")
    ∷ (0x03, "CP15 MCR/MRC")
    ∷ (0x04, "CP15 MCRR/MRRC")
    ∷ (0x05, "CP14 MCR/MRC")
    ∷ (0x06, "CP14 LDC/STC")
    ∷ (0x07, "ASIMD")
    ∷ (0x08, "CP10 MRC/VMRS")
    ∷ (0x0C, "CP14 MCRR/MRRC")
    ∷ (0x0E, "PSTATE.IL")
    ∷ (0x11, "SVC (AArch32)")
    ∷ (0x12, "HVC (AArch32)")
    ∷ (0x13, "SMC (AArch32)")
    ∷ (0x15, "SVC (AArch64)")
    ∷ (0x16, "HVC (AArch64)")
    ∷ (0x17, "SMC (AArch64)")
    ∷ (0x18, "MSR/MRS (AArch64)")
    ∷ (0x1F, "EL3 IMP DEF")
    ∷ (0x20, "IABT (lower EL)")
    ∷ (0x21, "IABT (current EL)")
    ∷ (0x22, "PC Alignment")
    ∷ (0x24, "DABT (lower EL)")
    ∷ (0x25, "DABT (current EL)")
    ∷ (0x26, "SP Alignment")
    ∷ (0x28, "FP (AArch32)")
    ∷ (0x2C, "FP (AArch64)")
    ∷ (0x2F, "SError")
    ∷ (0x30, "Breakpoint (lower EL)")
    ∷ (0x31, "Breakpoint (current EL)")
    ∷ (0x32, "Software Step (lower EL)")
    ∷ (0x33, "Software Step (current EL)")
    ∷ (0x34, "Watchpoint (lower EL)")
    ∷ (0x35, "Watchpoint (current EL)")
    ∷ (0x38, "BKPT (AArch32)")
    ∷ (0x3A, "Vector catch (AArch32)")
    ∷ (0x3C, "BRK (AArch64)")
    ∷ []

abbrev pub data_fault_code : List (ℕ × String)
data_fault_code =
    (0, "Address size fault, level0")
    ∷ (1, "Address size fault, level1")
    ∷ (2, "Address size fault, level2")
    ∷ (3, "Address size fault, level3")
    ∷ (4, "Translation fault, level0")
    ∷ (5, "Translation fault, level1")
    ∷ (6, "Translation fault, level2")
    ∷ (7, "Translation fault, level3")
    ∷ (9, "Access flag fault, level1")
    ∷ (10, "Access flag fault, level2")
    ∷ (11, "Access flag fault, level3")
    ∷ (13, "Permission fault, level1")
    ∷ (14, "Permission fault, level2")
    ∷ (15, "Permission fault, level3")
    ∷ (0x21, "Alignment fault")
    ∷ (0x35, "Unsupported Exclusive or Atomic access")
    ∷ []

unfoldable pub name_of : ℕ → List (ℕ × String) → Option String
name_of i [] = none
name_of i ((j, s) ∷ rest) = let later = name_of i rest in if i == j then some s else later

-- `ESR_CLASS_STR`, which has 64 entries.
unfoldable pub esr_get_class_string : (esr : ℕ) → Result String
unfolding name_of
esr_get_class_string esr =
    let i = esr / 2 ^ 26 in
    if ltb i 64
    then elim (name_of i esr_class_str) [ none ↦ ok "UNRECOGNIZED EC" | some s ↦ ok s ]
    else fault

-- `DATA_FAULT_CODE` has 0x36 entries; those without a text are NULL, and the index is not checked.
unfoldable pub esr_get_dfsc_string : (esr : ℕ) → Result (Option String)
unfolding name_of
esr_get_dfsc_string esr =
    let i = bit_and esr 0x3f in if ltb i 0x36 then ok (name_of i data_fault_code) else fault

-- `printk` prints a text that is NULL so.
abbrev pub text_or_null : Option String → String
text_or_null none = "<NULL>"
text_or_null (some s) = s

-- `(esr & (mask << shift)) >> shift`
abbrev pub field : (esr mask shift : ℕ) → ℕ
field esr mask shift = bit_and esr (mask * 2 ^ shift) / 2 ^ shift

abbrev pub esr_ec : ℕ → ℕ
esr_ec esr = field esr 0x3f 26

unfoldable pub parse_access : (esr : ℕ) → List PrintCall
parse_access esr =
    say "  Access size = %u byte(s)\n" (2 ^ field esr 3 22 ∷ []) []
    ∷ say "  SSE = %lu, SRT = %lu\n" (field esr 1 21 ∷ field esr 0x1f 16 ∷ []) []
    ∷ say "  SF = %lu, AR = %lu\n" (field esr 1 15 ∷ field esr 1 14 ∷ []) []
    ∷ []

-- The lines of a data abort, with the text of its fault.
unfoldable pub abort_lines : (esr : ℕ) → String → List PrintCall
unfolding parse_access
abort_lines esr dfsc =
    say "  Data abort:\n" [] []
    ∷ ((if bit_and esr (2 ^ 24) == 0 then [] else parse_access esr)
        ++ (say "  SET = %lu, FnV = %lu\n"
              (bit_and (esr / 2 ^ 11) 3 ∷ bit_and (esr / 2 ^ 10) 1 ∷ []) []
            ∷ say "  EA = %lu, S1PTW = %lu\n"
                (bit_and (esr / 2 ^ 9) 1 ∷ bit_and (esr / 2 ^ 7) 1 ∷ []) []
            ∷ say "  CM = %lu, WnR = %lu\n" (field esr 1 8 ∷ field esr 1 6 ∷ []) []
            ∷ say "  DFSC = %s\n" [] (dfsc ∷ [])
            ∷ []))

-- The part of `parse_esr` for a data abort.
unfoldable pub parse_data_abort : (esr : ℕ) → Result (List PrintCall)
parse_data_abort esr = do dfsc ← esr_get_dfsc_string esr; ok (abort_lines esr (text_or_null dfsc))

unfoldable pub parse_esr : (esr : ℕ) → Result (List PrintCall)
parse_esr esr =
    let ec = esr_ec esr in
    do
      name ← esr_get_class_string esr
      more ← (if ec == 0x24 || ec == 0x25 then parse_data_abort esr else ok [])
      ok (
          say "ESR info:\n" [] []
          ∷ say "  ESR = 0x%08x\n" (esr ∷ []) []
          ∷ say "  Exception class = %s, IL = %u bits\n"
              ((if bit_and esr (2 ^ 25) == 0 then 16 else 32) ∷ []) (name ∷ [])
          ∷ more)

-- What `bad_mode` prints, up to the endless loop of `panic`. A reason that is negative after the mask is
-- no index of the table; `current_el` and `far` are what the registers read.
unfoldable pub bad_mode : (current_el far : ℕ) → (reason : ℤ) → (esr : ℕ) → Result (List PrintCall)
bad_mode current_el far (negsuc n) esr = fault
bad_mode current_el far (pos reason) esr =
    let index = if leb 4 reason then bit_and reason 3 else reason in
    let unknown =
      if leb 4 reason
      then say "bad mode reason: 0x%08x\n" (reason ∷ []) []
        ∷ say "%s: running at EL%d\n" (current_el / 2 ^ 2 ∷ []) ("bad_mode" ∷ [])
        ∷ []
      else [] in
    do
      handler ← deref (get_elem? bad_mode_handler index)
      name ← esr_get_class_string esr
      lines ← parse_esr esr
      ok (
          unknown
          ++ (say "Bad mode for %s handler detected, FAR: 0x%x esr: 0x%x - %s\n" (far ∷ esr ∷ [])
                (handler ∷ name ∷ [])
              ∷ (lines ++ (say "Kernel panic\n" [] [] ∷ []))))
