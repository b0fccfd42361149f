-- ===== src/Mmu/Coarse/Refinement.antt =====
-- The coarse editor against an abstract address space, a function from addresses to what they mean:
-- mapping calls are updates of that function.
use nspire_utils.Base.{
  ℕ, ◌+◌, ◌*◌, ◌/◌, ◌%◌, ◌^◌, ◌<◌, ◌&&◌, some, List, [], ◌∷◌, ◌≡◌, ◌≢◌, refl, sym, ◌∙◌, arith, ◌==◌,
  if◌then◌else◌,
}
use mathlib.Core.Path.{subst}
use nspire_utils.Machine.{M, Machine, done, pure, ◌>>◌}
use nspire_utils.Mmu.Walk.{AddressSpace, Mapping, walk, TableOutside}
use nspire_utils.Mmu.Editor.{MmuEditor}
use nspire_utils.Mmu.Coarse.{CoarseEditor, map_4kb_page, map_64kb_page}
use nspire_utils.Mmu.Coarse.PageEntry.{page_mapping}
use nspire_utils.Mmu.Coarse.Pages.{small_mapped, large_mapped}
use nspire_utils.Mmu.Coarse.Attached.{
  Attached, WritesTable, WritesTable-Attached, small_mapped-WritesTable, large_mapped-WritesTable,
}
use nspire_utils.Mmu.Coarse.Remap.{walk-map_4kb_page, walk-map_64kb_page}

pub data PageSize : Type 0 where
  four_kb sixty_four_kb : PageSize

-- A call of `Map4KBPage` or `Map64KBPage` with its arguments.
pub record PageCall : Type 0 where
  pub size : PageSize
  pub virtual_addr : ℕ
  pub physical_addr : ℕ
  pub attributes : ℕ

-- A word for an address, and attributes in bits 2 to 11.
pub record IsValid (k : PageCall) : Type 0 where
  pub fits : k.physical_addr < 2 ^ 32
  pub small : k.attributes < 2 ^ 12
  pub clear : k.attributes % 4 ≡ 0

pub data AllValid : List PageCall → Type 0 where
  all_done : AllValid []
  one_more : {k : PageCall} {ks : List PageCall} → IsValid k → AllValid ks → AllValid (k ∷ ks)

module _ {H : Type 0} (c : CoarseEditor) where
  perform : PageSize → PageCall → M H (Unit {0})
  perform four_kb k = map_4kb_page c k.virtual_addr k.physical_addr k.attributes
  perform sixty_four_kb k = map_64kb_page c k.virtual_addr k.physical_addr k.attributes

  -- The calls one after the other.
  pub perform_all : List PageCall → M H (Unit {0})
  unfolding perform
  perform_all [] = pure tt
  perform_all (k ∷ ks) = perform k.size k >> perform_all ks

-- The page of an address within its megabyte.
abbrev page_number : PageSize → ℕ → ℕ
page_number four_kb va = va / 2 ^ 12 % 256
page_number sixty_four_kb va = va / 2 ^ 16 % 16

-- What an address in the page of a call means after it.
abbrev mapping_of : PageSize → PageCall → ℕ → ℕ → Mapping
mapping_of four_kb k domain va =
    page_mapping (k.physical_addr / 2 ^ 12 * 2 ^ 12 + va % 2 ^ 12) (va / 2 ^ 10 % 4) k.attributes
      domain
mapping_of sixty_four_kb k domain va =
    page_mapping (k.physical_addr / 2 ^ 16 * 2 ^ 16 + va % 2 ^ 16) (va / 2 ^ 14 % 4) k.attributes
      domain

-- The address space in which one page of the megabyte of `base` is remapped.
abbrev remap_page : ℕ → ℕ → PageCall → AddressSpace → AddressSpace
remap_page base domain k space va =
    if va / 2 ^ 20 == base / 2 ^ 20 && (page_number k.size va == page_number k.size k.virtual_addr)
    then some (mapping_of k.size k domain va)
    else space va

pub remap_pages : ℕ → ℕ → List PageCall → AddressSpace → AddressSpace
remap_pages base domain [] space = space
remap_pages base domain (k ∷ ks) space = remap_pages base domain ks (remap_page base domain k space)

-- Spaces that agree at one address still do there after the same calls.
remap_pages-at :
    (va base d : ℕ) (ks : List PageCall) (space space' : AddressSpace)
    → space va ≡ space' va
    → remap_pages base d ks space va ≡ remap_pages base d ks space' va
unfolding remap_pages
remap_pages-at va base d [] space space' same = same
remap_pages-at va base d (k ∷ ks) space space' same =
    remap_pages-at va base d ks (remap_page base d k space) (remap_page base d k space')
      (rw same refl)

module _ {H : Type 0} (e : MmuEditor) (c : CoarseEditor) (domain : ℕ) where
  -- What one call leaves, as far as the address `va` goes.
  record Performed (size : PageSize) (k : PageCall) (va : ℕ) (m : Machine H) : Type 0 where
    after : Machine H
    returned : perform c size k m ≡ done tt after
    wrote : WritesTable c m after
    meaning : walk after.mem after.ttbr0 va ≡ (
        if va / 2 ^ 20 == c.virtual_addr / 2 ^ 20
          && (page_number size va == page_number size k.virtual_addr)
        then some (mapping_of size k (domain % 16) va)
        else walk m.mem m.ttbr0 va)

  module _ (va : ℕ) (va_fits : va < 2 ^ 32) where
    abbrev Elsewhere : Machine H → Type 0
    Elsewhere m =
        va / 2 ^ 20 ≢ c.virtual_addr / 2 ^ 20
        → TableOutside c.l2_table (2 ^ 10) (m.mem (e.edited_table + 4 * (va / 2 ^ 20)))

    perform_lem :
        (size : PageSize) (k : PageCall) (m : Machine H)
        → IsValid k
        → Attached e c domain m
        → Elsewhere m
        → Performed size k va m
    unfolding perform
    perform_lem four_kb k m v at outside =
        let (returned, meaning) =
          walk-map_4kb_page e c domain m at k.virtual_addr k.physical_addr k.attributes v.fits
            v.small v.clear va va_fits outside in
        record {
          after = small_mapped c m at.held k.virtual_addr k.physical_addr k.attributes;
          returned = returned;
          wrote = small_mapped-WritesTable c m k.virtual_addr k.physical_addr k.attributes at.held;
          meaning = meaning;
        }
    perform_lem sixty_four_kb k m v at outside =
        let (returned, meaning) =
          walk-map_64kb_page e c domain m at k.virtual_addr k.physical_addr k.attributes v.fits
            v.small v.clear va va_fits outside in
        record {
          after = large_mapped c m at.held k.virtual_addr k.physical_addr k.attributes;
          returned = returned;
          wrote = large_mapped-WritesTable c m k.virtual_addr k.physical_addr k.attributes at.held;
          meaning = meaning;
        }

    Elsewhere-kept :
        (m m' : Machine H) → Attached e c domain m → WritesTable c m m' → Elsewhere m → Elsewhere m'
    Elsewhere-kept m m' at wrote outside other =
        let apart = at.apart in
        subst (TableOutside c.l2_table (2 ^ 10))
          (sym (wrote.outside (e.edited_table + 4 * (va / 2 ^ 20)) (omega arith))) (outside other)

    -- On a coarse editor whose table stands in a live parent's, any sequence of valid calls of
    -- `Map4KBPage` and `Map64KBPage` returns and leaves the editor's table in place; the table walk
    -- is then the address space before with the pages remapped one after the other, at every
    -- 32-bit address whose second-level table, if it is not the editor's, is apart from that.
    pub walk-perform_all :
        (ks : List PageCall) (m : Machine H)
        → AllValid ks
        → Attached e c domain m
        → Elsewhere m
        → (m' : Machine H) × (perform_all c ks m ≡ done tt m')
          × Attached e c domain m'
          × (walk m'.mem m'.ttbr0 va
              ≡ remap_pages c.virtual_addr (domain % 16) ks (walk m.mem m.ttbr0) va)
    unfolding perform_all remap_pages
    walk-perform_all [] m all_done at outside = (m, refl, at, refl)
    walk-perform_all (k ∷ ks) m (one_more v vs) at outside =
        let first = perform_lem k.size k m v at outside in
        let attached = WritesTable-Attached e c domain first.wrote at in
        let (m', rest, still, meaning) =
          walk-perform_all ks first.after vs attached
            (Elsewhere-kept m first.after at first.wrote outside) in
        (
          m',
          rw first.returned rest,
          still,
          meaning
              ∙ remap_pages-at va c.virtual_addr (domain % 16) ks
                  (walk first.after.mem first.after.ttbr0) _ first.meaning,
        )
