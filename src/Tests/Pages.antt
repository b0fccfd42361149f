-- ===== src/Tests/Pages.antt =====
-- The editors on a table that maps every megabyte to itself.
use nspire_utils.Base.{ℕ, ◌+◌, ◌-◌, ◌*◌, ◌/◌, ◌%◌, ◌^◌, inl, List, [], ◌∷◌, ◌≡◌, refl, arith}
use nspire_utils.Machine.{Machine, done, write, clean_dcache_line}
use nspire_utils.Caches.Range.{lines, line_count}
use nspire_utils.Alloc.Block.{Grants}
use nspire_utils.Mmu.Walk.{walk}
use nspire_utils.Mmu.Editor
use nspire_utils.Mmu.Editor.{MmuEditor}
use nspire_utils.Mmu.Editor.Section.{IsLive, after_put, map_section_lem}
use nspire_utils.Mmu.Editor.Refinement.{
  Edit, section_edit, unmapping, ValidEdits, no_edits, section_then, unmapping_then, run_edits,
  edited_space, run_edits-construct,
}
use nspire_utils.Mmu.Editor.Life.{installed_state, construct-walk, new_editor-IsLive}
use nspire_utils.Mmu.Coarse
use nspire_utils.Mmu.Coarse.{CoarseEditor}
use nspire_utils.Mmu.Coarse.Fill.{filled, retag}
use nspire_utils.Mmu.Coarse.Pages.{small_mapped, large_mapped, map_4kb_page_lem, map_64kb_page_lem}
use nspire_utils.Mmu.Coarse.Attached.{Attached}
use nspire_utils.Mmu.Coarse.Insert.{replaced-Attached, walk-coarse_construct}
use nspire_utils.Mmu.Coarse.Refinement.{
  PageCall, four_kb, sixty_four_kb, AllValid, all_done, one_more, perform_all, remap_pages,
  walk-perform_all,
}
use nspire_utils.Mmu.Coarse.Session as Pages
use nspire_utils.Mmu.Coarse.Session.{PageSession, small_step, large_step, destroy-PageSession}
use nspire_utils.Mmu.Editor.Session.{
  Session, at_rest, step_then, section_mapping_step, closed_editor, taken_down, destroy-Session,
  Preserved, Session-IsLive,
}
use nspire_utils.Tests.{arena, booted, identity_map}

abbrev raw : ℕ
raw = 0x100000

-- A new first-level table.
l1_grant : Grants arena (2 ^ 14 + 2 ^ 14 + 3) booted.heap raw (raw + (2 ^ 14 + 2 ^ 14 + 3))
l1_grant = record { answer = refl; not_null = omega arith; inside = omega arith }

abbrev l1_table : ℕ
l1_table = (raw + 2 ^ 14 + 3) / 2 ^ 14 * 2 ^ 14

abbrev fresh : MmuEditor
fresh = record { original_ttbr0_reg = 0x4018; edited_table = l1_table }

abbrev installed : Machine ℕ
installed = installed_state l1_table raw (raw + (2 ^ 14 + 2 ^ 14 + 3)) booted

construct-walk_example :
    (Editor.construct arena booted ≡ done fresh installed)
    × IsLive fresh installed
    × (installed.ttbr0 % 2 ^ 14 ≡ booted.ttbr0 % 2 ^ 14)
    × (walk installed.mem installed.ttbr0 0x12345678 ≡ walk booted.mem booted.ttbr0 0x12345678)
construct-walk_example =
    construct-walk arena booted (omega arith) l1_grant (omega arith) (inl (omega arith)) 0x12345678
      (omega arith) (λ c. absurd (omega arith))

-- One section mapped through the new editor.
abbrev sectioned : Machine ℕ
sectioned =
    after_put (l1_table + 4 * (0x300000 / 2 ^ 20)) (Editor.section_descriptor 0x10000000 0xc1c)
      installed

fresh-IsLive : IsLive fresh installed
fresh-IsLive =
    new_editor-IsLive arena booted (omega arith) l1_grant (omega arith) (inl (omega arith))

one_section : Session fresh installed sectioned
one_section =
    step_then
      (section_mapping_step 0x300000 0x10000000 0xc1c (omega arith)
        (map_section_lem fresh installed fresh-IsLive 0x300000 0x10000000 0xc1c (omega arith)))
      at_rest

Session-IsLive_example : IsLive fresh sectioned × Preserved fresh installed sectioned
Session-IsLive_example = Session-IsLive fresh fresh-IsLive one_section

-- One megabyte mapped, one unmapped, and the first one mapped again.
abbrev three_edits : List Edit
three_edits =
    section_edit 0x300000 0x10000000 0xc1c
    ∷ unmapping 0x12300000
    ∷ section_edit 0x300000 0x20000000 0xc10
    ∷ []

edits_valid : ValidEdits three_edits
edits_valid = section_then (omega arith) (omega arith) (omega arith) (omega arith) (
    unmapping_then (omega arith)
      (section_then (omega arith) (omega arith) (omega arith) (omega arith) no_edits))

run_edits-construct_example :
    (Editor.construct arena booted ≡ done fresh installed)
    × ((m' : Machine ℕ) × (run_edits fresh three_edits installed ≡ done tt m')
        × IsLive fresh m'
        × (walk m'.mem m'.ttbr0 0x345678
            ≡ edited_space three_edits (walk booted.mem booted.ttbr0) 0x345678))
run_edits-construct_example =
    run_edits-construct arena booted (omega arith) l1_grant (omega arith) (inl (omega arith))
      three_edits 0x345678 edits_valid (omega arith) (λ c. absurd (omega arith))

destroy-Session_example :
    let heap = raw + (2 ^ 14 + 2 ^ 14 + 3) in
    let closed =
      closed_editor arena booted (omega arith) l1_grant (omega arith) (inl (omega arith)) in
    let after =
      taken_down arena booted
        (omega arith)
        l1_grant
        (omega arith)
        (inl (omega arith))
        heap
        sectioned in
    IsLive fresh sectioned
    × (Editor.destroy arena fresh sectioned ≡ done closed after)
    × (Editor.destroy arena closed after ≡ done closed after)
destroy-Session_example =
    destroy-Session arena booted (omega arith) l1_grant (omega arith) (inl (omega arith)) sectioned
      one_section

-- An editor on the table in place.
abbrev editor : MmuEditor
editor = record { original_ttbr0_reg = 0x4018; edited_table = 0x4000 }

editor-IsLive : IsLive editor booted
editor-IsLive = record {
  installed = omega arith;
  aligned = omega arith;
  below = omega arith;
  current = omega arith;
}

-- The second-level table of the megabyte at 0x10000000.
l2_grant : Grants arena (2 ^ 10 + 2 ^ 10 + 3) booted.heap raw (raw + (2 ^ 10 + 2 ^ 10 + 3))
l2_grant = record { answer = refl; not_null = omega arith; inside = omega arith }

abbrev table : ℕ
table = (raw + 2 ^ 10 + 3) / 2 ^ 10 * 2 ^ 10

abbrev slot : ℕ
slot = 0x4000 + 4 * (0x10000000 / 2 ^ 20)

abbrev split : CoarseEditor
split = record { virtual_addr = 0x10000000; old_l1_entry = identity_map slot; l2_table = table }

abbrev replaced : Machine ℕ
replaced = after_put slot (Coarse.coarse_descriptor table 3) (record booted {
  mem = filled (identity_map slot) table (write booted.mem (table - 4) raw);
  heap = raw + (2 ^ 10 + 2 ^ 10 + 3);
  ops = lines clean_dcache_line (table / 32 * 32) (line_count table (table + 2 ^ 10)) [];
})

walk-coarse_construct_example :
    (Coarse.construct arena editor 0x10000000 3 booted ≡ done split replaced)
    × (walk replaced.mem replaced.ttbr0 0x10012345
        ≡ retag (3 % 16) (walk booted.mem 0x4018 0x10012345))
walk-coarse_construct_example =
    walk-coarse_construct arena editor booted editor-IsLive 0x10000000 3 (omega arith) (omega arith)
      (omega arith) l2_grant (omega arith) (inl (omega arith)) 0x10012345 (omega arith)
      (λ c. absurd (omega arith)) (λ other. absurd (omega arith))

split-Attached : Attached editor split 3 replaced
split-Attached =
    replaced-Attached arena editor booted editor-IsLive 0x10000000 3 (omega arith) (omega arith)
      (omega arith) l2_grant (omega arith) (inl (omega arith))

-- A page of 64 KB in that megabyte, and a page of 4 KB out of it.
abbrev large_call : PageCall
large_call = record {
  size = sixty_four_kb;
  virtual_addr = 0x10010000;
  physical_addr = 0x20050000;
  attributes = 0xffc;
}

abbrev small_call : PageCall
small_call = record {
  size = four_kb;
  virtual_addr = 0x10012000;
  physical_addr = 0x20005000;
  attributes = 0x554;
}

both_valid : AllValid (large_call ∷ small_call ∷ [])
both_valid =
    one_more (record { fits = omega arith; small = omega arith; clear = omega arith })
      (one_more (record { fits = omega arith; small = omega arith; clear = omega arith }) all_done)

walk-perform_all_example :
    (m' : Machine ℕ) × (perform_all split (large_call ∷ small_call ∷ []) replaced ≡ done tt m')
    × Attached editor split 3 m'
    × (walk m'.mem m'.ttbr0 0x10012345
        ≡ remap_pages 0x10000000
            (3 % 16)
            (large_call ∷ small_call ∷ [])
            (walk replaced.mem replaced.ttbr0)
            0x10012345)
walk-perform_all_example =
    walk-perform_all editor split 3 0x10012345 (omega arith) (large_call ∷ small_call ∷ []) replaced
      both_valid split-Attached (λ other. absurd (omega arith))

-- The same calls, and the destructor.
abbrev once : Machine ℕ
once = large_mapped split replaced split-Attached.held 0x10010000 0x20050000 0xffc

abbrev twice : Machine ℕ
twice = small_mapped split once split-Attached.held 0x10012000 0x20005000 0x554

two_calls : PageSession split replaced twice
two_calls =
    Pages.step_then
      (large_step 0x10010000 0x20050000 0xffc
        (map_64kb_page_lem split replaced split-Attached.held 0x10010000 0x20050000 0xffc))
      (Pages.step_then
        (small_step 0x10012000 0x20005000 0x554
          (map_4kb_page_lem split once split-Attached.held 0x10012000 0x20005000 0x554))
        Pages.at_rest)

destroy-PageSession_example :
    let m' = record (after_put slot (identity_map slot) twice) {
      heap = raw + (2 ^ 10 + 2 ^ 10 + 3);
    } in
    (Coarse.destroy arena editor split twice ≡ done (record split { l2_table = 0 }) m')
    × (m'.ttbr0 ≡ 0x4018)
    × (m'.mem 0x4000 ≡ identity_map 0x4000)
    × (walk m'.mem m'.ttbr0 0x10012345 ≡ walk booted.mem 0x4018 0x10012345)
destroy-PageSession_example =
    destroy-PageSession arena editor booted editor-IsLive 0x10000000 3 (omega arith) (omega arith)
      (omega arith) l2_grant (omega arith) (inl (omega arith)) twice two_calls 0x4000 0x10012345
      (inl (omega arith)) (omega arith) (λ c. absurd (omega arith))
