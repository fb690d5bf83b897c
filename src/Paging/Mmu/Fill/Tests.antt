-- ===== src/Paging/Mmu/Fill/Tests.antt =====
-- src/paging.c, `remap_kernel`: a kernel of one section, whose tables are there.
use os_c.Prelude.{
  ℕ, ◌+◌, ◌-◌, ◌*◌, ◌%◌, ◌^◌, ◌<◌, ◌≡◌, refl, sym, ap, ◌∙◌, some, List, [], ◌∷◌, arith,
}
use os_c.Memory.{read_bytes, write_bytes, read64, write64, store}
use os_c.FrameAllocator.{get_frame_start_addr}
use os_c.Printf.Outcome.{ok}
use os_c.Paging.{
  get_p4_index, get_p3_index, get_p2_index, get_p1_index, set_page_table_entry, get_page_for_vaddr,
}
use os_c.Paging.Index.{index-digit}
use os_c.Paging.Entry.{flag_word}
use os_c.Paging.Tests.{booted, run_remap}
use os_c.Paging.Mmu.{
  slot, word_at, LeadsOn, Machine, machine, identity_map_page, map_page_to_frame,
  get_next_page_table_or_create, descend, set_entry, create, install,
}
use os_c.Paging.Mmu.Step.{there}
use os_c.Paging.Mmu.Map.{Levels}
use os_c.Paging.Mmu.Remap.{Printed, map_kernel}
use os_c.Paging.Mmu.Fill.{CanFill, full, fills, Filled, AtDepth}
use os_c.Paging.Mmu.Fill.Pages.{OnPages}
use os_c.Paging.Mmu.Fill.Sections.{map_kernel-fills}
use os_c.Paging.Mmu.Tests.{
  walk, processor, frames, one_page, one_page-Recursive, table_entry, page_entry,
}

-- the way to the table in the frame 32
record Way (m : ℕ → ℕ) : Type 0 where
  w4 : LeadsOn m 1 0 30
  w3 : LeadsOn m 30 0 31
  w2 : LeadsOn m 31 0 32

way-Levels : (m : ℕ → ℕ) (page : ℕ) → Way m → page < 512 → Levels m 1 1 page frames 30 31 32
way-Levels m page w low =
    let (e4, e3, e2, e1) = index-digit page in
    let d4 : get_p4_index page ≡ 0 = omega (arith, e4, low) in
    let d3 : get_p3_index page ≡ 0 = omega (arith, e3, low) in
    let d2 : get_p2_index page ≡ 0 = omega (arith, e2, low) in
    record {
      a3 = frames;
      a2 = frames;
      a1 = frames;
      l4 = there (rw d4 w.w4);
      l3 = there (rw d3 w.w3);
      l2 = there (rw d2 w.w2);
      low = ground (arith, d4);
      t3-root = ground arith;
      t2-root = ground arith;
      t1-root = ground arith;
      t3-top = ground arith;
      t2-top = ground arith;
      t1-top = ground arith;
      t2-t3 = ground arith;
      t1-t3 = ground arith;
      t1-t2 = ground arith;
    }

-- the depths of the frames 30, 31 and 32
abbrev depth : ℕ → ℕ
depth t = 33 - t

tables-AtDepth : AtDepth depth 30 31 32
tables-AtDepth = record { third = refl; second = refl; first = refl }

same_machine : {s s' : Machine} → ok s ≡ ok s' → s ≡ s'
same_machine same = cc

-- One frame after the other, when it is known what the call for the first leaves.
fills_known :
    (m m' : ℕ → ℕ) (frame hi lo : ℕ) (rest : List (ℕ × ℕ)) (w : Way m)
    → frame < 512
    → word_at m 32 (get_p1_index frame) % 2 ≡ 0
    → hi < 2 ^ 12
    → lo < 2 ^ 12
    → lo % 2 ≡ 1
    → identity_map_page processor frame (flag_word hi lo) (machine m 1 frames)
      ≡ ok (machine m' 1 frames)
    → CanFill processor depth 1 1 m' frames rest
    → CanFill processor depth 1 1 m frames ((frame, flag_word hi lo) ∷ rest)
unfolding way-Levels
fills_known m m' frame hi lo rest w low unused high flags present known can =
    fills m frames frame hi lo 30 31 32 rest (way-Levels m frame w low) unused tables-AtDepth
      (omega (arith, low)) high flags present
      (λ m'' a done.
        let same = same_machine (sym known ∙ done) in
        rw (← ap (λ s. s.memory) same, ← ap (λ s. s.allocator) same) can)

-- memory once the section's page, the screen's and that of the structure are mapped
abbrev after1 : ℕ → ℕ
after1 = write64 one_page (slot 32 0x105) (0x105 * 2 ^ 12 + 0x8000000000000003)

abbrev after2 : ℕ → ℕ
after2 = write64 after1 (slot 32 0xb8) (0xb8 * 2 ^ 12 + 0x8000000000000003)

abbrev after3 : ℕ → ℕ
after3 = write64 after2 (slot 32 9) (9 * 2 ^ 12 + 0x8000000000000001)

way0 : Way one_page
unfolding read64 read_bytes write64 write_bytes store
way0 = record {
  w4 = record { leads = record { present = refl; frame = refl }; small = refl };
  w3 = record { leads = record { present = refl; frame = refl }; small = refl };
  w2 = record { leads = record { present = refl; frame = refl }; small = refl };
}

way1 : Way after1
unfolding read64 read_bytes write64 write_bytes store
way1 = record {
  w4 = record { leads = record { present = refl; frame = refl }; small = refl };
  w3 = record { leads = record { present = refl; frame = refl }; small = refl };
  w2 = record { leads = record { present = refl; frame = refl }; small = refl };
}

way2 : Way after2
unfolding read64 read_bytes write64 write_bytes store
way2 = record {
  w4 = record { leads = record { present = refl; frame = refl }; small = refl };
  w3 = record { leads = record { present = refl; frame = refl }; small = refl };
  w2 = record { leads = record { present = refl; frame = refl }; small = refl };
}

abbrev booted_frames : List (ℕ × ℕ)
booted_frames =
    (0x105, 0x8000000000000003) ∷ (0xb8, 0x8000000000000003) ∷ (0x9, 0x8000000000000001) ∷ []

booted-CanFill : CanFill processor depth 1 1 one_page frames booted_frames
unfolding identity_map_page map_page_to_frame get_next_page_table_or_create descend set_entry create
    install get_page_for_vaddr get_frame_start_addr get_p4_index get_p3_index get_p2_index
    get_p1_index read64 read_bytes write64 write_bytes store table_entry page_entry
    set_page_table_entry
booted-CanFill =
    fills_known one_page after1 0x105 0x800 3 _ way0 (omega arith) refl (omega arith) (omega arith)
      refl refl
      (fills_known after1 after2 0xb8 0x800 3 _ way1 (omega arith) refl (omega arith) (omega arith)
        refl refl
        (fills_known after2 after3 9 0x800 1 _ way2 (omega arith) refl (omega arith) (omega arith)
          refl refl (full after3 frames)))

map_kernel-fills_example :
    (s' : Machine) × (said : Printed) × (map_kernel processor booted (machine one_page 1 frames, [])
      ≡ ok (s', said))
    × Filled processor depth 1 1 one_page s'.memory booted_frames
    × OnPages (λ page. walk s'.memory 1 page ≡ some page) booted
map_kernel-fills_example =
    map_kernel-fills processor depth 1 1 one_page frames booted booted_frames [] one_page-Recursive
      run_remap booted-CanFill
