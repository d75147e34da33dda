-- ===== src/Mmu/Start.antt =====
-- What `paging_init` maps.
use arm64os.Common.{
  ℕ, zero, suc, ◌+◌, ◌*◌, ◌/◌, ◌^◌, ◌<◌, ◌≤◌, ◌≡◌, ◌≢◌, ◌⊎◌, inl, inr, some, none, arith, refl, ap,
  Bool-cases, ◌==◌, ==_iff, if◌then◌else◌,
}
use arm64os.Mmu.{MmuImage, SystemRegisters, page_kernel}
use arm64os.PageAlloc.{total_memory}
use arm64os.PageTable.{PhysMemory, clear_page}
use arm64os.PageTable.Walk.{decode, translate, Translation}
use arm64os.Mmu.Attributes.{IsKernelPage, write_back, device_ngnrne}
use arm64os.PageTable.Labels.{Labels, EntryFits, IsRoot}
use arm64os.PageTable.Frame.{leaf_empty}
use arm64os.PageTable.Entry.{IsPageProt, translation}
use arm64os.PageTable.Run.{Run}
use arm64os.PageTable.Create.{IsSound, NoSection}

pub page_kernel-IsPageProt : IsPageProt page_kernel
page_kernel-IsPageProt = record { page = refl; no_address = refl }

decode-not-none : (va : ℕ) (e : ℕ × ℕ) → decode va (some e) ≢ none
decode-not-none va (e, l) h = cc h

-- Where nothing is mapped there is no section.
pub unmapped-NoSection :
    (root lo hi : ℕ) (s : PhysMemory)
    → ((va : ℕ) → lo ≤ va → va < hi → translate s.words root va ≡ none)
    → NoSection root lo hi s
unfolding translate
unmapped-NoSection root lo hi s none_mapped va a b e k found =
    decode-not-none va (e, suc k) (rw found at (none_mapped va a b))

-- One table of empty entries.
abbrev single : ℕ → Labels
single root = record { level = λ x. if x == root then 4 else 0; number = λ x. 0 }

abbrev pub emptied : ℕ → PhysMemory → PhysMemory
emptied root s = record s { words = clear_page root s.words }

emptied_at : (root i : ℕ) (s : PhysMemory) → i < 512 → (emptied root s).words (root + i * 8) ≡ 0
emptied_at root i s h = ground (arith, h)

single-root : (root x l : ℕ) → (single root).level x ≡ suc l → x ≡ root
single-root root x l h = ground (arith, h)

empty-EntryFits : (g : Labels) (l x i : ℕ) → EntryFits g l x i 0
empty-EntryFits g zero x i = tt
empty-EntryFits g (suc l) x i = inl refl

pub emptied-IsSound : (root : ℕ) (s : PhysMemory) → IsSound root (emptied root s)
emptied-IsSound root s = record {
  labels = single root;
  tables = record {
    placed = λ x ne. elim (Bool-cases (x == root)) [
      | inl e ↦ inl ((==_iff x root).0 e)
      | inr e ↦ absurd (ne (rw e))
    ];
    entries = λ l x i h below.
        let same : x ≡ root = single-root root x l h in
        rw same (rw (emptied_at root i s below) (empty-EntryFits (single root) l root i));
  };
  top = ground arith;
  whole = refl;
}

pub emptied-unmapped :
    (root va : ℕ) (s : PhysMemory) → translate (emptied root s).words root va ≡ none
unfolding translate
emptied-unmapped root va s =
    ap (decode va) (leaf_empty (emptied root s).words 3 root va (emptied_at root _ s (omega arith)))

-- A range of addresses that are their own images.
record IsIdentity (root prot lo hi : ℕ) (s t : PhysMemory) : Type 0 where
  sound : IsSound root t
  inside : (va : ℕ) → lo ≤ va → va < hi → translate t.words root va ≡ some (translation prot va)
  outside :
      (va : ℕ)
      → va < 2 ^ 48
      → (va < lo) ⊎ (hi ≤ va)
      → translate t.words root va ≡ translate s.words root va

-- The pages that hold a range start and end there.
abbrev pub first_page : ℕ → ℕ
first_page a = a / 4096 * 4096

abbrev pub pages_end : ℕ → ℕ
pages_end b = (b + 4095) / 4096 * 4096

-- The image lies in the memory, and its table of the highest level is a page of its own.
pub record IsMmuImage (img : MmuImage) : Type 0 where
  pub root : IsRoot img.idmap_pgd_dir
  pub some_text : img.text_boot_start < img.text_end
  pub in_memory : img.text_end + 4096 ≤ total_memory

-- The address `va` is its own image, in a page of that kind.
abbrev pub IsIdentityPage :
    (root : ℕ) (t : PhysMemory) (regs : SystemRegisters) (type writable executable va : ℕ) → Type 0
IsIdentityPage root t regs type writable executable va =
    (e : Translation) × (translate t.words root va ≡ some e)
    × (e.address ≡ va)
    × IsKernelPage regs type writable executable e

-- What is mapped: the text, all memory behind it, the devices, and nothing else.
pub record IsPaged (img : MmuImage) (t : PhysMemory) (regs : SystemRegisters) : Type 0 where
  pub text :
      (va : ℕ)
      → first_page img.text_boot_start ≤ va
      → va < pages_end img.text_end
      → IsIdentityPage img.idmap_pgd_dir t regs write_back 0 1 va
  pub memory :
      (va : ℕ)
      → pages_end img.text_end ≤ va
      → va < total_memory
      → IsIdentityPage img.idmap_pgd_dir t regs write_back 1 0 va
  pub devices :
      (va : ℕ)
      → 0xFE000000 ≤ va
      → va < 0x100000000
      → IsIdentityPage img.idmap_pgd_dir t regs device_ngnrne 1 0 va
  pub below :
      (va : ℕ) → va < first_page img.text_boot_start → translate t.words img.idmap_pgd_dir va ≡ none
  pub between :
      (va : ℕ) → total_memory ≤ va → va < 0xFE000000 → translate t.words img.idmap_pgd_dir va ≡ none
  pub beyond :
      (va : ℕ) → 0x100000000 ≤ va → va < 2 ^ 48 → translate t.words img.idmap_pgd_dir va ≡ none
