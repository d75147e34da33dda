-- ===== src/Dump/Whole.antt =====
-- The dump from the table of the highest level, for ranges that it can walk and ranges that it cannot.
use arm64os.Common.{
  ℕ, zero, suc, ◌+◌, ◌-◌, ◌/◌, ◌%◌, ◌^◌, ◌<◌, ◌≤◌, ◌≡◌, ◌≢◌, arith, refl, ◌==◌, false, Result, ok,
  fault, out_of_fuel, ◌>>=◌, List, ◌++◌, if◌then◌else◌, Bool,
}
use arm64os.PageTable.{PhysMemory, addr_end, offset_phys}
use arm64os.PageTable.Labels.{Labels}
use arm64os.PageTable.Loops.{pud_end-IsPartEnd}
use arm64os.Dump.Lines.{DumpLine, dump_entries, visit_pud, walk_pud}

never_ok :
    (r : Result (List DumpLine)) (lines : List DumpLine) (b : Bool) (next : Result (List DumpLine))
    → b ≡ false
    → ((more : List DumpLine) → next ≢ ok more)
    → (r >>= λ first. if b then ok first else (next >>= λ more. ok (first ++ more))) ≢ ok lines
never_ok fault lines b next h never e = cc e
never_ok out_of_fuel lines b next h never e = cc e
never_ok (ok first) lines b fault h never e = cc (rw h at e)
never_ok (ok first) lines b out_of_fuel h never e = cc (rw h at e)
never_ok (ok first) lines b (ok more) h never e = never more refl

-- A loop that always computes the same end, short of its own, does not come to its end.
endless :
    (n : ℕ) (visit : (entryp addr next : ℕ) → Result (List DumpLine)) (fuel p lo hi : ℕ)
    (lines : List DumpLine)
    → (n == hi) ≡ false
    → dump_entries (λ (a : ℕ). n) visit fuel p lo hi ≢ ok lines
unfolding dump_entries
endless n visit zero p lo hi lines other e = cc e
endless n visit (suc fuel) p lo hi lines other e =
    never_ok (visit p lo n) lines (n == hi) (dump_entries (λ (a : ℕ). n) visit fuel (p + 8) n hi)
      other (λ more. endless n visit fuel (p + 8) n hi more other) e

-- `walk_pud` does not come to the end of a range that crosses a multiple of 1 GB, whatever the tables
-- hold: it computes the end of each part from `start`, so its address stays at the first multiple.
pub walk_pud-endless :
    (mask fuel pgdp start end_addr : ℕ) (s : PhysMemory) (lines : List DumpLine)
    → start / 2 ^ 30 < (end_addr - 1) / 2 ^ 30
    → end_addr ≤ 2 ^ 48
    → end_addr % 4096 ≡ 0
    → walk_pud mask fuel pgdp start end_addr s ≢ ok lines
unfolding walk_pud
walk_pud-endless mask fuel pgdp start end_addr s lines crosses small aligned =
    let e = pud_end-IsPartEnd start end_addr (omega (arith, crosses)) small aligned in
    let n = addr_end 30 start end_addr in
    let other : (n == end_addr) ≡ false = ground (arith, e.one_entry, crosses, aligned) in
    endless n (visit_pud mask fuel s) fuel (offset_phys 30 pgdp start s) start end_addr lines other

-- A range within one multiple of 1 GB.
pub record IsDumpRange (start size : ℕ) : Type 0 where
  pub some_size : 0 < size
  pub start_aligned : start % 4096 ≡ 0
  pub size_aligned : size % 4096 ≡ 0
  pub virtual : start + size ≤ 2 ^ 48
  pub one_entry : (start + size - 1) / 2 ^ 30 ≡ start / 2 ^ 30
