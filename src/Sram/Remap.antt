-- ===== src/Sram/Remap.antt =====
-- The three sections that the constructor maps.
use nspire_utils.Base.{
  ℕ, ◌+◌, ◌*◌, ◌/◌, ◌^◌, ◌≤◌, ◌<◌, true, Option, some, ◌≡◌, ◌≢◌, ◌⊎◌, refl, ◌∙◌, arith,
}
use nspire_utils.Machine.{Machine, M, done, write}
use nspire_utils.Machine.Store.{write_ne}
use nspire_utils.Mmu.Walk.{walk}
use nspire_utils.Mmu.Descriptor.{
  MmuAccessPermission, full_access, MmuCachePolicy, non_cached_non_buffered,
}
use nspire_utils.Mmu.Editor.{MmuEditor, map_section, section_descriptor}
use nspire_utils.Mmu.Editor.Section.{IsLive, after_put, map_section_lem}
use nspire_utils.Sram.{
  SramAccessor, sram_physical_address, section_attributes, call_disable, call_enable, remap,
}
use nspire_utils.Sram.Attributes.{mapped_section, walk-section}

-- The state behind one `MapSection`.
abbrev pub mapped :
    {H : Type 0}
    → MmuEditor
    → ℕ
    → ℕ
    → MmuAccessPermission
    → MmuCachePolicy
    → ℕ
    → Machine H
    → Machine H
mapped e va pa p c d m =
    after_put (e.edited_table + 4 * (va / 2 ^ 20))
      (section_descriptor pa (section_attributes p c d)) m

-- Only TTBR0 makes an editor live or not.
pub IsLive-same :
    {H : Type 0} {e : MmuEditor} {m m' : Machine H} → m'.ttbr0 ≡ m.ttbr0 → IsLive e m → IsLive e m'
IsLive-same same live = record {
  installed = live.installed;
  aligned = live.aligned;
  below = live.below;
  current = rw same live.current;
}

pub mapped_lem :
    {H : Type 0} (e : MmuEditor) (va pa : ℕ) (p : MmuAccessPermission) (c : MmuCachePolicy) (d : ℕ)
    (m : Machine H)
    → IsLive e m
    → va < 2 ^ 32
    → map_section e va pa (section_attributes p c d) m ≡ done tt (mapped e va pa p c d m)
mapped_lem e va pa p c d m live fits =
    map_section_lem e m live va pa (section_attributes p c d) fits

-- The callbacks answer a mask and change nothing that is modelled.
pub record AreCallbacks {H : Type 0} (disable : Option (M H ℕ))
    (enable : Option (ℕ → M H (Unit {0}))) (mask : ℕ) : Type 0 where
  pub disables : (m : Machine H) → call_disable disable m ≡ done mask m
  pub enables : (m : Machine H) → call_enable enable mask m ≡ done tt m

-- The block in the place of the SRAM and of address 0, and the SRAM at its new address.
abbrev pub remapped :
    {H : Type 0}
    → MmuEditor
    → ℕ
    → ℕ
    → ℕ
    → MmuAccessPermission
    → MmuCachePolicy
    → ℕ
    → Machine H
    → Machine H
remapped e block old new p c d m = mapped e new sram_physical_address p c d (
    mapped e 0 block full_access non_cached_non_buffered old
      (mapped e sram_physical_address block full_access non_cached_non_buffered old m))

-- The table behind the three writes, read at each of the entries.
module _ (mem : ℕ → ℕ) (t i v w x : ℕ) (not_zero : i ≢ 0) (not_sram : i ≢ 2624) where
  abbrev table : ℕ → ℕ
  table = write (write (write mem (t + 10496) v) (t + 0) v) (t + 4 * i) w

  table-sram : x ≡ t + 10496 → table x ≡ v
  unfolding write
  table-sram h = ground arith

  pub table-zero : x ≡ t → table x ≡ v
  unfolding write
  table-zero h = ground arith

  pub table-new : x ≡ t + 4 * i → table x ≡ w
  unfolding write
  table-new h = ground arith

  pub table-elsewhere : x ≢ t + 10496 → x ≢ t + 0 → x ≢ t + 4 * i → table x ≡ mem x
  table-elsewhere a b c =
      write_ne (write (write mem (t + 10496) v) (t + 0) v) (t + 4 * i) w x c
      ∙ write_ne (write mem (t + 10496) v) (t + 0) v x b
      ∙ write_ne mem (t + 10496) v x a

  pub table-outside : i < 2 ^ 12 → (x < t) ⊎ (t + 2 ^ 14 ≤ x) → table x ≡ mem x
  table-outside small out = table-elsewhere (omega arith) (omega arith) (omega arith)

module _ {H : Type 0} (e : MmuEditor) (a : SramAccessor H) (p : MmuAccessPermission)
    (c : MmuCachePolicy) (d : ℕ) (m : Machine H) (live : IsLive e m) {mask : ℕ}
    (calls : AreCallbacks a.disable_interrupts a.enable_interrupts mask)
    (block_fits : a.cloned_sram_block < 2 ^ 32) (new_fits : a.new_sram_address < 2 ^ 32) where
  abbrev after_remap : Machine H
  after_remap = remapped e a.cloned_sram_block a.original_sram_domain a.new_sram_address p c d m

  pub remap_lem : remap e a p c d m ≡ done (record a { init_successful = true }) after_remap
  unfolding remap
  remap_lem =
      let block = a.cloned_sram_block in
      let old = a.original_sram_domain in
      let m₁ = mapped e sram_physical_address block full_access non_cached_non_buffered old m in
      let m₂ = mapped e 0 block full_access non_cached_non_buffered old m₁ in
      let live₁ : IsLive e m₁ = IsLive-same refl live in
      let live₂ : IsLive e m₂ = IsLive-same refl live₁ in
      rw
        (
          calls.disables m,
          mapped_lem e sram_physical_address block full_access non_cached_non_buffered old m live
              (omega arith),
          mapped_lem e 0 block full_access non_cached_non_buffered old m₁ live₁ (omega arith),
          mapped_lem e a.new_sram_address sram_physical_address p c d m₂ live₂ new_fits,
          calls.enables after_remap,
        )
        refl

  -- The addresses of the three megabytes.
  pub walk-remap :
      (o : ℕ)
      → o < 2 ^ 20
      → a.new_sram_address / 2 ^ 20 ≢ 0
      → a.new_sram_address / 2 ^ 20 ≢ sram_physical_address / 2 ^ 20
      → let block = a.cloned_sram_block in
        let old = a.original_sram_domain in
        let new = a.new_sram_address / 2 ^ 20 * 2 ^ 20 in
        let m' = after_remap in
        (walk m'.mem m'.ttbr0 (sram_physical_address + o)
          ≡ some (
              mapped_section block full_access non_cached_non_buffered old
                (sram_physical_address + o)))
        × (walk m'.mem m'.ttbr0 o
            ≡ some (mapped_section block full_access non_cached_non_buffered old o))
        × (walk m'.mem m'.ttbr0 (new + o)
            ≡ some (mapped_section sram_physical_address p c d (new + o)))
  walk-remap o small not_zero not_sram =
      let block = a.cloned_sram_block in
      let old = a.original_sram_domain in
      let new = a.new_sram_address / 2 ^ 20 * 2 ^ 20 in
      let i = a.new_sram_address / 2 ^ 20 in
      let t = e.edited_table in
      let m' = after_remap in
      let v =
        section_descriptor block (section_attributes full_access non_cached_non_buffered old) in
      let w = section_descriptor sram_physical_address (section_attributes p c d) in
      let current : m.ttbr0 / 2 ^ 14 * 2 ^ 14 ≡ t = live.current in
      (
        walk-section m'.mem m'.ttbr0 block (sram_physical_address + o) full_access
            non_cached_non_buffered old block_fits
            (table-sram m.mem t i v w _ not_zero not_sram (omega arith)),
        walk-section m'.mem m'.ttbr0 block o full_access non_cached_non_buffered old block_fits
            (table-zero m.mem t i v w _ not_zero not_sram (omega arith)),
        walk-section m'.mem m'.ttbr0 sram_physical_address (new + o) p c d (omega arith)
            (table-new m.mem t i v w _ not_zero not_sram (omega arith)),
      )
