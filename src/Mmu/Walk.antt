-- ===== src/Mmu/Walk.antt =====
-- The translation-table walk of the ARM926's MMU, the description of the hardware against which the
-- editors are stated: what a virtual address means under the tables in the store. It reads the
-- fields of an entry by arithmetic, not by the helpers of MMUEditor.hpp.
use nspire_utils.Base.{
  ℕ, ◌+◌, ◌*◌, ◌/◌, ◌%◌, ◌^◌, ◌≤◌, ◌≡◌, ◌⊎◌, inl, inr, Bool-cases, ==→eq, Option, none, some, ◌==◌,
  if◌then◌else◌, ◌<◌, arith,
}

-- Where an access goes: the physical address, and the entry's access permission (0 to 3), C and B
-- bits (0 to 3) and domain.
pub record Mapping : Type 0 where
  pub address : ℕ
  pub permission : ℕ
  pub policy : ℕ
  pub domain : ℕ

-- Field `s` of the four access permissions of a page.
unfoldable pub subpage : ℕ → ℕ → ℕ
subpage entry s =
    if s == 0
    then entry / 2 ^ 4 % 4
    else if s == 1
    then entry / 2 ^ 6 % 4
    else if s == 2
    then entry / 2 ^ 8 % 4
    else entry / 2 ^ 10 % 4

-- A page entry: 64 KB pages carry a permission per 16 KB, 4 KB pages one per 1 KB.
unfoldable pub walk_page : ℕ → ℕ → ℕ → Option Mapping
unfolding subpage
walk_page entry domain va =
    if entry % 4 == 1
    then some (record {
      address = entry / 2 ^ 16 * 2 ^ 16 + va % 2 ^ 16;
      permission = subpage entry (va / 2 ^ 14 % 4);
      policy = entry / 2 ^ 2 % 4;
      domain = domain;
    })
    else if entry % 4 == 2
    then some (record {
      address = entry / 2 ^ 12 * 2 ^ 12 + va % 2 ^ 12;
      permission = subpage entry (va / 2 ^ 10 % 4);
      policy = entry / 2 ^ 2 % 4;
      domain = domain;
    })
    else none

unfoldable pub walk_entry : (ℕ → ℕ) → ℕ → ℕ → Option Mapping
walk_entry mem entry va =
    if entry % 4 == 2
    then some (record {
      address = entry / 2 ^ 20 * 2 ^ 20 + va % 2 ^ 20;
      permission = entry / 2 ^ 10 % 4;
      policy = entry / 2 ^ 2 % 4;
      domain = entry / 2 ^ 5 % 16;
    })
    else if entry % 4 == 1
    then walk_page (mem (entry / 2 ^ 10 * 2 ^ 10 + 4 * (va / 2 ^ 12 % 256))) (entry / 2 ^ 5 % 16) va
    else none

-- A fault, or the mapping of `va` under the tables at TTBR0.
unfoldable pub walk : (ℕ → ℕ) → ℕ → ℕ → Option Mapping
unfolding walk_entry
walk mem ttbr0 va = walk_entry mem (mem (ttbr0 / 2 ^ 14 * 2 ^ 14 + 4 * (va / 2 ^ 20))) va

-- Two ranges of bytes, each a first address and a size, have none in common.
abbrev pub Disjoint : ℕ → ℕ → ℕ → ℕ → Type 0
Disjoint a n b k = (a + n ≤ b) ⊎ (b + k ≤ a)

-- Where the second-level table of an entry stands, if the entry names one.
abbrev pub l2_base : ℕ → ℕ
l2_base entry = entry / 2 ^ 10 * 2 ^ 10

-- If the entry names a second-level table, it lies outside `n` bytes from `a` on.
abbrev pub TableOutside : ℕ → ℕ → ℕ → Type 0
TableOutside a n entry = entry % 4 ≡ 1 → Disjoint (l2_base entry) (2 ^ 10) a n

-- A word of the second-level table at `b` lies outside `n` bytes from `a` on, if the table does.
pub outside_block :
    (n a b i : ℕ) → Disjoint b (2 ^ 10) a n → (b + 4 * (i % 256) < a) ⊎ (a + n ≤ b + 4 * (i % 256))
outside_block n a b i h = omega arith

-- The walk from an entry reads one word more at most, out of the entry's second-level table.
pub walk_entry_frame :
    (mem mem' : ℕ → ℕ) (entry va : ℕ)
    → (entry % 4 ≡ 1
        → mem' (l2_base entry + 4 * (va / 2 ^ 12 % 256))
          ≡ mem (l2_base entry + 4 * (va / 2 ^ 12 % 256)))
    → walk_entry mem' entry va ≡ walk_entry mem entry va
unfolding walk_entry
walk_entry_frame mem mem' entry va same = elim (Bool-cases (entry % 4 == 1)) [
  | inl coarse ↦ rw (same (==→eq (entry % 4) 1 coarse))
  | inr other ↦ rw other
]

-- The abstract side of the editors: what each address means.
abbrev pub AddressSpace : Type 0
AddressSpace = ℕ → Option Mapping
