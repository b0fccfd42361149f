-- ===== src/Tests/Accessor.antt =====
-- An accessor of the SRAM on the machine with an identity map.
use nspire_utils.Base.{
  ℕ, ◌+◌, ◌*◌, ◌^◌, true, Option, none, some, inl, inr, ◌≡◌, refl, arith, ◌==◌, if◌then◌else◌,
}
use nspire_utils.Machine.{◌>>=◌, Machine, M, done, throw, runtime_error}
use nspire_utils.Mmu.Walk.{walk}
use nspire_utils.Mmu.Descriptor.{full_access, write_back_cache, non_cached_non_buffered}
use nspire_utils.Mmu.Editor.{MmuEditor}
use nspire_utils.Mmu.Editor.Section.{IsLive}
use nspire_utils.Alloc.Block.{Grants}
use nspire_utils.Sram.{SramAccessor, sram_physical_address, construct, destroy}
use nspire_utils.Sram.Copy.{SectionAt}
use nspire_utils.Sram.Attributes.{mapped_section}
use nspire_utils.Sram.Remap.{AreCallbacks}
use nspire_utils.Sram.Construct.{filled, moved, construct-moves_sram, construct-not_identity}
use nspire_utils.Sram.Life.{sram_destroy-construct}
use nspire_utils.Sram.Destroy.{released, destroy-restores_sram}
use nspire_utils.Tests.{arena, identity_map, booted}

abbrev editor : MmuEditor
editor = record { original_ttbr0_reg = 0x4018; edited_table = 0x4000 }

editor-IsLive : {m : Machine ℕ} → m.ttbr0 ≡ 0x4018 → IsLive editor m
editor-IsLive same = record {
  installed = omega arith;
  aligned = refl;
  below = omega arith;
  current = rw same refl;
}

abbrev raw_block : ℕ
raw_block = 0x100000

abbrev heap_behind : ℕ
heap_behind = 0x100000 + (2 ^ 18 + 2 ^ 20 + 3)

raw_block-Grants : Grants arena (2 ^ 18 + 2 ^ 20 + 3) 0x100000 raw_block heap_behind
raw_block-Grants = record { answer = refl; not_null = omega arith; inside = omega arith }

-- The interrupts are on in one mask bit, which is answered and given back.
abbrev disable_all : Option (M ℕ ℕ)
disable_all = some (λ m. done 2 m)

abbrev enable_mask : Option (ℕ → M ℕ (Unit {0}))
enable_mask = some (λ mask m. done tt m)

callbacks : AreCallbacks disable_all enable_mask 2
callbacks = record { disables = λ m. refl; enables = λ m. refl }

sram_identity : SectionAt identity_map 0x4018 sram_physical_address sram_physical_address
sram_identity = record { is_section = refl; offset = refl; frame = refl }

block_identity : SectionAt identity_map 0x4018 0x200000 0x200000
block_identity = record { is_section = refl; offset = refl; frame = refl }

abbrev object : SramAccessor ℕ
object = record {
  original_sram_domain = 0;
  cloned_sram_block = 0x200000;
  new_sram_address = 0x90000000;
  disable_interrupts = disable_all;
  enable_interrupts = enable_mask;
  init_successful = true;
}

construct-moves_sram_example :
    let m' =
      moved arena editor booted
        (editor-IsLive refl)
        raw_block-Grants
        (omega arith)
        (inl (omega arith))
        sram_identity
        block_identity
        0x90000000
        full_access
        write_back_cache
        0
        (omega arith)
        callbacks
        (omega arith) in
    (construct arena editor 0x90000000 disable_all enable_mask full_access write_back_cache 0 booted
      ≡ done object m')
    × IsLive editor m'
    × (m'.mem (0x200000 + 4 * 5) ≡ booted.mem (sram_physical_address + 4 * 5))
    × (walk m'.mem m'.ttbr0 (sram_physical_address + 0x1234)
        ≡ some (
            mapped_section 0x200000 full_access non_cached_non_buffered 0
              (sram_physical_address + 0x1234)))
    × (walk m'.mem m'.ttbr0 0x1234
        ≡ some (mapped_section 0x200000 full_access non_cached_non_buffered 0 0x1234))
    × (walk m'.mem m'.ttbr0 (0x90000000 + 0x1234)
        ≡ some (
            mapped_section sram_physical_address full_access write_back_cache 0
              (0x90000000 + 0x1234)))
construct-moves_sram_example =
    construct-moves_sram arena editor booted (editor-IsLive refl) raw_block-Grants (omega arith)
      (inl (omega arith)) sram_identity block_identity 0x90000000 full_access write_back_cache 0
      (omega arith) callbacks (omega arith) 5 0x1234 (omega arith) (omega arith) (inr (omega arith))
      (omega arith) (omega arith)

sram_destroy-construct_example :
    (m' : Machine ℕ) × ((construct arena editor 0x90000000 disable_all enable_mask full_access
            write_back_cache 0
          >>= destroy arena editor)
        booted
      ≡ done (record object { cloned_sram_block = 0 }) m')
    × (m'.mem (sram_physical_address + 4 * 5) ≡ booted.mem (sram_physical_address + 4 * 5))
    × (walk m'.mem m'.ttbr0 (sram_physical_address + 0x1234)
        ≡ some (
            mapped_section sram_physical_address full_access write_back_cache 0
              (sram_physical_address + 0x1234)))
    × (walk m'.mem m'.ttbr0 (0x90000000 + 0x1234) ≡ none)
    × (m'.heap ≡ arena.free raw_block heap_behind)
sram_destroy-construct_example =
    sram_destroy-construct arena editor booted (editor-IsLive refl) raw_block-Grants (omega arith)
      (inl (omega arith)) sram_identity block_identity 0x90000000 full_access write_back_cache 0
      (omega arith) callbacks (omega arith) (inr (omega arith)) (omega arith) (omega arith)
      (omega arith) refl (inl (omega arith)) 5 0x1234 (omega arith) (omega arith)

-- The SRAM's entry names the megabyte at 0x10000000.
abbrev misplaced : Machine ℕ
misplaced = record booted { mem = λ a. if a == 0x6900 then 0x10000c02 else identity_map a }

construct-not_identity_example :
    construct arena editor 0x90000000 none none full_access write_back_cache 0 misplaced
    ≡ throw (runtime_error "SRAM region is not identity mapped") (
        filled arena editor misplaced
          (editor-IsLive refl)
          raw_block-Grants
          (omega arith)
          (inl (omega arith))
          0x10000000)
construct-not_identity_example =
    construct-not_identity arena editor misplaced (editor-IsLive refl) raw_block-Grants
      (omega arith) (inl (omega arith)) {from = 0x10000000}
      (record { is_section = refl; offset = refl; frame = refl })
      (record { is_section = refl; offset = refl; frame = refl }) 0x90000000 none none full_access
      write_back_cache 0 (omega arith) (omega arith)

-- The SRAM stands at 0x90000000, and the clone in the place of address 0.
abbrev in_use : Machine ℕ
in_use = record booted {
  mem = λ a. if a == 0x6400 then 0xa4000c02 else if a == 0x4000 then 0x200c12 else identity_map a;
}

destroy-restores_sram_example :
    let m' =
      released arena editor object in_use
        (editor-IsLive refl)
        callbacks
        refl
        (omega arith)
        (omega arith)
        refl
        (omega arith)
        refl
        (record { is_section = refl; offset = refl; frame = refl })
        (record { is_section = refl; offset = refl; frame = refl })
        (inl (omega arith)) in
    (destroy arena editor object in_use ≡ done (record object { cloned_sram_block = 0 }) m')
    × (m'.mem (sram_physical_address + 4 * 5) ≡ in_use.mem (0x200000 + 4 * 5))
    × (walk m'.mem m'.ttbr0 (sram_physical_address + 0x1234)
        ≡ some (
            mapped_section sram_physical_address full_access write_back_cache 0
              (sram_physical_address + 0x1234)))
    × (walk m'.mem m'.ttbr0 (0x90000000 + 0x1234) ≡ none)
    × (walk m'.mem m'.ttbr0 0x1234 ≡ walk in_use.mem in_use.ttbr0 0x1234)
destroy-restores_sram_example =
    destroy-restores_sram arena editor object in_use (editor-IsLive refl) callbacks refl
      (omega arith) (omega arith) refl (omega arith) refl
      (record { is_section = refl; offset = refl; frame = refl })
      (record { is_section = refl; offset = refl; frame = refl }) (inl (omega arith))
      (inr (omega arith)) (inl (omega arith)) 5 0x1234 (omega arith) (omega arith) (omega arith)
      (omega arith) refl
