-- ===== src/PageTable/Entry.antt =====
-- The bits of the entries: what the code stores is what the walk reads back.
use arm64os.Common.{ℕ, ◌+◌, ◌-◌, ◌*◌, ◌/◌, ◌%◌, ◌^◌, ◌<◌, ◌≡◌, arith, bit_or, bit_and}
use arm64os.Common.Bits.{and_split, or_split, and_zero, or_zero, zero_or, and_low_mask}
use arm64os.PageTable.{page_paddr, mk_sect_prot, table_index, pte_addr_mask}
use arm64os.PageTable.Walk.{Translation, target}

-- Attributes as the constants of pgtable_prot.h have them: those of a page, and no bit of an address.
pub record IsPageProt (prot : ℕ) : Type 0 where
  pub page : prot % 4 ≡ 3
  pub no_address : prot / 2 ^ 12 % 2 ^ 36 ≡ 0

-- What a mapped address translates to.
abbrev pub translation : (prot address : ℕ) → Translation
translation prot address = record {
  address = address;
  low_attributes = prot % 2 ^ 12 / 4;
  high_attributes = prot / 2 ^ 48;
}

pub page_paddr_lem : (e : ℕ) → page_paddr e ≡ target e
unfolding page_paddr
page_paddr_lem e =
    let high = e / 2 ^ 48 in
    let rest = e % 2 ^ 48 in
    let split = and_split 48 high rest 0 pte_addr_mask (omega arith) (omega arith) in
    let inner =
      and_split 12 (rest / 2 ^ 12) (rest % 2 ^ 12) (2 ^ 36 - 1) 0 (omega arith) (omega arith) in
    let whole : high * 2 ^ 48 + rest ≡ e = omega arith in
    let whole_rest : rest / 2 ^ 12 * 2 ^ 12 + rest % 2 ^ 12 ≡ rest = omega arith in
    omega (
      arith,
      rw whole at split,
      rw whole_rest at inner,
      and_zero high,
      and_zero (rest % 2 ^ 12),
      and_low_mask 36 (rest / 2 ^ 12),
    )

pub table_index_lem : (shift addr : ℕ) → table_index shift addr ≡ addr / 2 ^ shift % 512
unfolding table_index
table_index_lem shift addr = and_low_mask 9 (addr / 2 ^ shift)

-- An address or'ed with attributes is their sum.
pub or-prot :
    (a prot : ℕ)
    → a % 2 ^ 12 ≡ 0
    → a < 2 ^ 48
    → prot / 2 ^ 12 % 2 ^ 36 ≡ 0
    → bit_or a prot ≡ a + prot
or-prot a prot h small none_between =
    let high = prot / 2 ^ 48 in
    let low = prot % 2 ^ 12 in
    let split = or_split 48 0 a high low (omega arith) (omega arith) in
    let inner = or_split 12 (a / 2 ^ 12) 0 0 low (omega arith) (omega arith) in
    let whole : high * 2 ^ 48 + low ≡ prot = omega arith in
    let whole_a : a / 2 ^ 12 * 2 ^ 12 + 0 ≡ a = omega arith in
    let only_a : 0 * 2 ^ 48 + a ≡ a = omega arith in
    let only_low : 0 * 2 ^ 12 + low ≡ low = omega arith in
    omega (
      arith,
      rw (whole, only_a) at split,
      rw (whole_a, only_low) at inner,
      zero_or high,
      zero_or low,
      or_zero (a / 2 ^ 12),
    )

pub sect_prot_lem : (prot : ℕ) → prot % 4 ≡ 3 → bit_or 1 (mk_sect_prot prot) ≡ prot - 2
unfolding mk_sect_prot
sect_prot_lem prot h =
    let q = prot / 4 in
    let masked = and_split 2 q 3 0 2 (omega arith) (omega arith) in
    let joined = or_split 2 0 1 q 1 (omega arith) (omega arith) in
    let whole : q * 2 ^ 2 + 3 ≡ prot = omega arith in
    let less : prot - bit_and prot 2 ≡ q * 2 ^ 2 + 1 =
      omega (arith, rw whole at masked, and_zero q) in
    rw less (omega (arith, joined, zero_or q))
