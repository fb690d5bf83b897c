-- ===== src/Paging/Mmu/Remap.antt =====
-- src/paging.c, `remap_kernel` and `unmap_page` on physical memory. The calls of `terminal_printf` are kept
-- as a list; the register that allows pages without execution is not part of the state.
use os_c.Prelude.{ℕ, zero, suc, ◌+◌, ◌*◌, if◌then◌else◌, List, [], ◌∷◌, bit_or, codes, page_size}
use os_c.Memory.{read64}
use os_c.Multiboot.{ElfSectionHeader, MultibootData, elf_section_is_allocated}
use os_c.FrameAllocator.{Status, allocate_frame, get_frame_start_addr}
use os_c.Printf.Outcome.{Result, ok, out_of_fuel, ◌>>=◌}
use os_c.Paging.{
  present_bit, writeable_bit, page_table_entry_count, p4_table, entry_at, set_unused, get_p4_index,
  get_p3_index, get_p2_index, get_p1_index,
}
use os_c.Paging.Remap.{section_flags, remap_section, other_frames}
use os_c.Paging.Mmu.{
  Mmu, Machine, physical, descend, set_entry, map_page_to_frame, identity_map_page,
}

abbrev pub Printed : Type 0
Printed = List (List ℕ × List ℕ)

abbrev allocated_frame : Status → ℕ → Machine → Result (ℕ × Machine)
allocated_frame Status.success frame s = ok (frame, s)
allocated_frame Status.failure frame s = ok (frame, s)
allocated_frame Status.out_of_fuel frame s = out_of_fuel

-- a frame for the new top table; the status is not read
unfoldable pub take_frame : Machine → Result (ℕ × Machine)
take_frame s =
    let got = allocate_frame s.allocator in
    allocated_frame got.status got.number (record s { allocator = got.allocator })

-- the line that is printed for a section; one that takes no memory is passed over
abbrev pub say_section : ElfSectionHeader → Printed → Printed
say_section section printed =
    if elf_section_is_allocated section
    then (codes "Addr: %#zx\tFlags : %#zX\n", section.sh_addr ∷ section_flags section ∷ [])
      ∷ printed
    else printed

module _ (x : Mmu) where
  unfoldable pub load : ℕ → Machine → Result ℕ
  load vaddr s = do a ← physical x vaddr s; ok (read64 s.memory a)

  unfoldable pub clear : ℕ → Machine → Result Machine
  clear entry s = do a ← physical x entry s; ok (record s { memory = set_unused a s.memory })

  -- `init_page_table`, from the entry `i` on
  unfoldable pub clear_table : ℕ → ℕ → ℕ → Machine → Result Machine
  clear_table zero i table s = ok s
  clear_table (suc n) i table s = do s' ← clear (entry_at table i) s; clear_table n (i + 1) table s'

  -- `unmap_page`; the frame that is read out of the cleared entry is not set
  unfoldable pub unmap : ℕ → Machine → Result Machine
  unmap page s = do
    p3 ← descend x p4_table (get_p4_index page) s
    p2 ← descend x p3 (get_p3_index page) s
    p1 ← descend x p2 (get_p2_index page) s
    clear (entry_at p1 (get_p1_index page)) s

  unfoldable pub identity_map_all : List (ℕ × ℕ) → Machine → Result Machine
  identity_map_all [] s = ok s
  identity_map_all ((frame, flags) ∷ frames) s = do
    s' ← identity_map_page x frame flags s
    identity_map_all frames s'

  -- the loop over the sections, from the section `i` on
  unfoldable pub map_sections :
      (ℕ → ElfSectionHeader) → ℕ → ℕ → Machine × Printed → Result (Machine × Printed)
  map_sections sections zero i (s, printed) = ok (s, printed)
  map_sections sections (suc n) i (s, printed) =
      let section = sections i in
      do
        frames ← remap_section section
        s' ← identity_map_all frames s
        map_sections sections n (i + 1) (s', say_section section printed)

  -- the sections, the screen and the multiboot structure
  unfoldable pub map_kernel : MultibootData → Machine × Printed → Result (Machine × Printed)
  map_kernel mb (s, printed) = do
    (s', said) ← map_sections mb.elf_symbols.sectionheaders mb.elf_symbols.num 0 (s, printed)
    s'' ← identity_map_all (other_frames mb) s'
    ok (s'', said)

  unfoldable pub remap_kernel : MultibootData → Machine × Printed → Result (Machine × Printed)
  remap_kernel mb (s, printed) = do
    let page : ℕ = 0xdeadbeef
    let old_page : ℕ = 0xdddd0000
    let old_p4_table = old_page * page_size
    let flags = bit_or present_bit writeable_bit
    (new, s0) ← take_frame s
    s1 ← map_page_to_frame x page new flags s0
    let old = s1.root
    s2 ← map_page_to_frame x old_page old flags s1
    s3 ← clear_table page_table_entry_count 0 (page * page_size) s2
    own ← load (entry_at p4_table 511) s3
    olds ← load (entry_at old_p4_table 511) s3
    s4 ← set_entry x (page * page_size + 8 * 511) new flags s3
    s5 ← set_entry x (entry_at p4_table 511) new flags s4
    news ← load (entry_at p4_table 511) s5
    let said =
        (codes "new p4 entry[511] %#zX\n", news ∷ [])
        ∷ (codes "New p4 frame addr %#zX\n", get_frame_start_addr new ∷ [])
        ∷ (codes "Old p4 entry[511] %#zX\n", olds ∷ [])
        ∷ (codes "Old p4 entry[511] %#zX\n", own ∷ [])
        ∷ (codes "CR3 = %#zx\n", old * page_size ∷ [])
        ∷ (codes "Old page addr: %#zx\n", old ∷ [])
        ∷ printed
    (s7, said') ← map_kernel mb (s5, said)
    s8 ← set_entry x (entry_at old_p4_table 511) old flags s7
    back ← load (entry_at p4_table 511) s8
    s9 ← unmap old_page s8
    s10 ← unmap old (record s9 { root = new })
    ok (
      s10,
      (codes "End of remap.\n", [])
          ∷ (codes "Old p4 entry[511] %#zX\n", back ∷ [])
          ∷ (codes "New kernel page tables set up.\n", [])
          ∷ said',
    )
