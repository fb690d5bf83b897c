-- ===== src/Paging/Tests.antt =====
-- src/paging.c: a memory in which every entry is that of a small page.
use os_c.Prelude.{
  ℕ, ◌+◌, ◌*◌, ◌/◌, ◌%◌, ◌^◌, ◌-◌, ◌≡◌, refl, inl, if◌then◌else◌, ◌==◌, some, none, page_size,
  arith, [], ◌∷◌,
}
use os_c.FrameAllocator.{get_frame_for_addr}
use os_c.Multiboot.{
  MultibootData, elf_section_is_writable, elf_section_is_exectuable, ElfSectionHeader,
  elf_section_is_allocated,
}
use os_c.Paging.{
  translate, unmap_page, set_unused, set_page_table_entry, get_physical_frame, get_p4_index,
  get_p3_index, get_p2_index,
}
use os_c.Paging.Remap.{
  section_frames, remap_sections, multiboot_frames, remap_frames, IsSection, run, section_flags,
  remap_section, remap_section-run,
}
use os_c.Memory.{read_bytes, read64}
use os_c.Printf.Outcome.{ok}
use os_c.Paging.Recursive.{IsMapped}
use os_c.Paging.Entry.{flag_word, get_physical_frame-set}
use os_c.Paging.Walk.{p1_entry, IsSmall, translate-mapped, unmap_page-mapped}

-- the frame 5, present and writeable
abbrev tables : ℕ → ℕ
tables a = if a % 8 == 0 then 0x03 else if a % 8 == 1 then 0x50 else 0

abbrev vaddr : ℕ
vaddr = 0x8080604567

tables-IsMapped : IsMapped tables (vaddr / page_size)
unfolding read64 read_bytes get_p4_index get_p3_index get_p2_index
tables-IsMapped = record { p4_entry = refl; p3_entry = refl; p2_entry = refl }

tables-IsSmall : IsSmall tables (vaddr / page_size)
unfolding read64 read_bytes get_p4_index get_p3_index get_p2_index
tables-IsSmall = refl

tables-present : read64 tables (p1_entry (vaddr / page_size)) % 2 ≡ 1
unfolding read64 read_bytes
tables-present = refl

translate-mapped_example :
    translate tables vaddr
    ≡ ok (
        read64 tables (p1_entry (vaddr / page_size)) / 2 ^ 12 % 2 ^ 40 * 2 ^ 12 + vaddr % page_size)
translate-mapped_example =
    translate-mapped tables vaddr (inl (omega arith)) tables-IsMapped tables-IsSmall tables-present

unmap_page-mapped_example :
    unmap_page (vaddr / page_size) tables
    ≡ ok (set_unused (p1_entry (vaddr / page_size)) tables, none)
unmap_page-mapped_example = unmap_page-mapped tables (vaddr / page_size) tables-IsMapped

get_physical_frame-set_example :
    (m' : ℕ → ℕ) × (set_page_table_entry 0x1000 0x1234 (flag_word 0x800 0x3) tables ≡ ok m')
    × (get_physical_frame m' 0x1000 ≡ some 0x1234)
get_physical_frame-set_example =
    get_physical_frame-set tables 0x1000 0x1234 0x800 0x3 (omega arith) (omega arith) (omega arith)
      refl

-- a section of one page and a byte
abbrev pub data_section : ElfSectionHeader
data_section = record {
  sh_name = 0;
  sh_type = 1;
  sh_flags = 0x3;
  sh_addr = 0x105000;
  sh_offset = 0;
  sh_size = 0x1001;
  sh_link = 0;
  sh_info = 0;
  sh_addralign = 0x1000;
  sh_entsize = 0;
}

data_section-IsSection : IsSection data_section
unfolding elf_section_is_allocated
data_section-IsSection = record {
  allocated = refl;
  aligned = refl;
  nonempty = omega arith;
  room = omega arith;
}

remap_section-run_example :
    remap_section data_section
    ≡ ok (
        run
          ((0x1001 - 1 + (page_size - 1)) / page_size)
          (0x105000 / page_size)
          (section_flags data_section))
remap_section-run_example = remap_section-run data_section data_section-IsSection

abbrev pub booted : MultibootData
booted = record {
  start = record { address = 0x9000; total_size = 0x120 };
  memory_map = record {
    type_word = 6;
    size = 16;
    entry_size = 24;
    entry_version = 0;
    memory_maps = λ i. record { base_addr = 0; length = 0; type_word = 1; reserved = 0 };
  };
  elf_symbols = record {
    type_word = 9;
    size = 84;
    num = 1;
    entsize = 64;
    shndx = 0;
    sectionheaders = λ i. data_section;
  };
}

-- the data, the screen and the boot loader's structure
pub run_remap :
    remap_frames booted
    ≡ ok ((0x105, 0x8000000000000003) ∷ (0xb8, 0x8000000000000003) ∷ (0x9, 0x8000000000000001) ∷ [])
unfolding remap_frames remap_sections remap_section section_frames multiboot_frames section_flags
    elf_section_is_allocated elf_section_is_writable elf_section_is_exectuable get_frame_for_addr
run_remap = refl
