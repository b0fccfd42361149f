-- ===== src/Sram/Copy.antt =====
-- A copy through the MMU between two blocks, each inside one section.
use nspire_utils.Base.{
  ℕ, zero, suc, ◌+◌, ◌*◌, ◌/◌, ◌%◌, ◌^◌, ◌≤◌, ◌<◌, ◌≡◌, ◌⊎◌, refl, ap, ◌∙◌, arith,
}
use native.Mathlib.Numerals.{unary_clauses}
use nspire_utils.Machine.{Machine, done, write}
use nspire_utils.Machine.Store.{write_self, write_ne}
use nspire_utils.Mmu.Walk.{walk, walk_entry, Disjoint}
use nspire_utils.Sram.{virtual_memcpy, translate}

-- Where the first-level entry of an address stands.
abbrev pub entry_address : ℕ → ℕ → ℕ
entry_address ttbr0 va = ttbr0 / 2 ^ 14 * 2 ^ 14 + 4 * (va / 2 ^ 20)

-- The entry is a section, and takes the address `va` to `pa`.
pub record SectionAt (mem : ℕ → ℕ) (ttbr0 va pa : ℕ) : Type 0 where
  pub is_section : mem (entry_address ttbr0 va) % 4 ≡ 2
  pub offset : pa % 2 ^ 20 ≡ va % 2 ^ 20
  pub frame : mem (entry_address ttbr0 va) / 2 ^ 20 ≡ pa / 2 ^ 20

translate_lem :
    {H : Type 0} (va pa : ℕ) (m : Machine H)
    → SectionAt m.mem m.ttbr0 va pa
    → translate va m ≡ done pa m
unfolding walk walk_entry
translate_lem va pa m at =
    let sum : pa / 2 ^ 20 * 2 ^ 20 + va % 2 ^ 20 ≡ pa = let o = at.offset in omega arith in
    rw (at.is_section, at.frame, sum)

-- The store behind the copy of `n` words.
pub copied : ℕ → ℕ → ℕ → (ℕ → ℕ) → ℕ → ℕ
copied dst src zero mem = mem
copied dst src (suc n) mem = copied (dst + 4) (src + 4) n (write mem dst (mem src))

pub copied-outside :
    (dst src n : ℕ) (mem : ℕ → ℕ) (a : ℕ)
    → (a < dst) ⊎ (dst + 4 * n ≤ a)
    → copied dst src n mem a ≡ mem a
unfolding copied
copied-outside dst src zero mem a out = refl
copied-outside dst src (suc n) mem a out =
    copied-outside (dst + 4) (src + 4) n (write mem dst (mem src)) a (omega arith)
    ∙ write_ne mem dst (mem src) a (omega arith)

pub copied-inside :
    (dst src n : ℕ) (mem : ℕ → ℕ) (i : ℕ)
    → Disjoint dst (4 * n) src (4 * n)
    → i < n
    → copied dst src n mem (dst + 4 * i) ≡ mem (src + 4 * i)
unfolding copied
copied-inside dst src zero mem i apart below = absurd (omega arith)
copied-inside dst src (suc n) mem zero apart below =
    ap (copied (dst + 4) (src + 4) n (write mem dst (mem src))) (omega arith)
    ∙ copied-outside (dst + 4) (src + 4) n (write mem dst (mem src)) dst (omega arith)
    ∙ write_self mem dst (mem src)
    ∙ ap mem (omega arith)
copied-inside dst src (suc n) mem (suc i) apart below =
    ap (copied (dst + 4) (src + 4) n (write mem dst (mem src))) (omega arith)
    ∙ copied-inside (dst + 4) (src + 4) n (write mem dst (mem src)) i (omega arith) (omega arith)
    ∙ write_ne mem dst (mem src) (src + 4 + 4 * i) (omega arith)
    ∙ ap mem (omega arith)

-- The mapping holds to the end of the megabyte.
SectionAt-shift :
    {mem : ℕ → ℕ} {ttbr0 va pa : ℕ} (k : ℕ)
    → va % 2 ^ 20 + k < 2 ^ 20
    → SectionAt mem ttbr0 va pa
    → SectionAt mem ttbr0 (va + k) (pa + k)
SectionAt-shift {mem} {ttbr0} {va} {pa} k room at =
    let is_section = at.is_section in
    let offset = at.offset in
    let frame = at.frame in
    let same : (va + k) / 2 ^ 20 ≡ va / 2 ^ 20 = omega arith in
    let page : pa / 2 ^ 20 ≡ (pa + k) / 2 ^ 20 = omega arith in
    record { is_section = rw same is_section; offset = omega arith; frame = rw same (frame ∙ page) }

pub SectionAt-write :
    {mem : ℕ → ℕ} {ttbr0 va pa : ℕ} (a v : ℕ)
    → (a < ttbr0 / 2 ^ 14 * 2 ^ 14) ⊎ (ttbr0 / 2 ^ 14 * 2 ^ 14 + 2 ^ 14 ≤ a)
    → va < 2 ^ 32
    → SectionAt mem ttbr0 va pa
    → SectionAt (write mem a v) ttbr0 va pa
SectionAt-write {mem} {ttbr0} {va} {pa} a v out fits at =
    let same = write_ne mem a v (entry_address ttbr0 va) (omega arith) in
    record { is_section = rw same at.is_section; offset = at.offset; frame = rw same at.frame }

-- Between two such blocks, apart from each other and with the target apart from the first-level table,
-- the copy is one of physical words.
virtual_memcpy-from :
    {H : Type 0} (dst src pd ps : ℕ) (k i : ℕ) (m : Machine H)
    → SectionAt m.mem m.ttbr0 dst pd
    → SectionAt m.mem m.ttbr0 src ps
    → dst < 2 ^ 32
    → src < 2 ^ 32
    → dst % 2 ^ 20 + 4 * (i + k) ≤ 2 ^ 20
    → src % 2 ^ 20 + 4 * (i + k) ≤ 2 ^ 20
    → Disjoint (m.ttbr0 / 2 ^ 14 * 2 ^ 14) (2 ^ 14) pd (4 * (i + k))
    → virtual_memcpy (dst + 4 * i) (src + 4 * i) k m
      ≡ done tt (record m { mem = copied (pd + 4 * i) (ps + 4 * i) k m.mem })
unfolding virtual_memcpy copied
virtual_memcpy-from dst src pd ps zero i m at_dst at_src fits_dst fits_src room_dst room_src apart =
    refl
virtual_memcpy-from dst src pd ps (suc k) i m at_dst at_src fits_dst fits_src room_dst room_src
      apart =
    let next : Machine _ = record m { mem = write m.mem (pd + 4 * i) (m.mem (ps + 4 * i)) } in
    let rest =
      virtual_memcpy-from dst src pd ps k (i + 1) next
        (SectionAt-write (pd + 4 * i) (m.mem (ps + 4 * i)) (omega arith) fits_dst at_dst)
        (SectionAt-write (pd + 4 * i) (m.mem (ps + 4 * i)) (omega arith) fits_src at_src) fits_dst
        fits_src (omega arith) (omega arith) (omega arith) in
    rw
      (
        translate_lem (src + 4 * i) (ps + 4 * i) m (SectionAt-shift (4 * i) (omega arith) at_src),
        translate_lem (dst + 4 * i) (pd + 4 * i) m (SectionAt-shift (4 * i) (omega arith) at_dst),
        after dst,
        after src,
        after pd,
        after ps,
      )
      rest
  where
    after : (a : ℕ) → a + 4 * i + 4 ≡ a + 4 * (i + 1)
    after a = omega arith

pub virtual_memcpy_lem :
    {H : Type 0} (dst src pd ps n : ℕ) (m : Machine H)
    → SectionAt m.mem m.ttbr0 dst pd
    → SectionAt m.mem m.ttbr0 src ps
    → dst < 2 ^ 32
    → src < 2 ^ 32
    → dst % 2 ^ 20 + 4 * n ≤ 2 ^ 20
    → src % 2 ^ 20 + 4 * n ≤ 2 ^ 20
    → Disjoint (m.ttbr0 / 2 ^ 14 * 2 ^ 14) (2 ^ 14) pd (4 * n)
    → virtual_memcpy dst src n m ≡ done tt (record m { mem = copied pd ps n m.mem })
virtual_memcpy_lem dst src pd ps n m at_dst at_src fits_dst fits_src room_dst room_src apart =
    let start =
      virtual_memcpy-from dst src pd ps n 0 m at_dst at_src fits_dst fits_src (omega arith)
        (omega arith) (omega arith) in
    simp unary_clauses at start
