-- ===== src/FrameAllocator/Tests.antt =====
-- src/frame_allocator.c: runs of the allocator on a small machine.
use os_c.Prelude.{
  [], ℕ, ◌+◌, ◌*◌, ◌≤◌, ◌≡◌, ◌≢◌, refl, ◌⊎◌, inl, true, if◌then◌else◌, ◌==◌, some, All, arith,
  page_size, ◌/◌,
}
use os_c.Multiboot.{MemoryMapEntry, MemoryMap, ElfSectionHeader, MultibootData}
use os_c.FrameAllocator.{
  deallocate_frame, Allocator, allocate_frame, init_allocator, init_counted, success, failure,
  get_frame_for_addr, select_area, choose, kernel_extent, extend, count_entries, allocate_loop,
  round, switch_area,
}
use os_c.Terminal.Tests.{screen, filled, screen-Shows}
use os_c.Terminal.{Terminal}
use os_c.Terminal.Sheet.{type_text}
use os_c.Terminal.Text.{Prints}
use os_c.Printf.{Caller}
use os_c.Printf.Outcome.{ok}
use os_c.FrameAllocator.Message.{
  alloc_message, allocate_frame_printing, allocate_frame_printing-cases,
}
use os_c.FrameAllocator.Inv.{IsValid, is_reserved, last_frame}
use os_c.FrameAllocator.Allocate.{Hands, Refuses, allocate_frame-cases}
use os_c.FrameAllocator.Sweep.{IsSwept, Apart, allocate_frame-exhausted}
use os_c.FrameAllocator.Sequence.{allocations, Ascends, Unreserved, allocations-Ascends}
use os_c.FrameAllocator.Init.{IsUsable, Kept, Started, init_allocator-IsValid, allocations-spare}
use os_c.FrameAllocator.Faults.{allocate_frame-below_area, retype, allocate_frame-retype}

-- two areas of eight pages, the second from the page 16 on
abbrev area : ℕ → MemoryMapEntry
area i = record {
  base_addr = if i == 0 then 0 else 0x10000;
  length = 0x8000;
  type_word = 1;
  reserved = 0;
}

abbrev two_areas : MemoryMap
two_areas = record {
  type_word = 6;
  size = 64;
  entry_size = 24;
  entry_version = 0;
  memory_maps = area;
}

-- the kernel in the frames 2 and 3, the boot loader's structure in frame 5
abbrev pub machine : ℕ → ℕ → Allocator
machine next index = record {
  next_free_frame = next;
  mem_map = two_areas;
  entry_index = index;
  num_entries = 2;
  kernel_start = 2;
  kernel_end = 3;
  multiboot_start = 5;
  multiboot_end = 5;
}

run_first : (allocate_frame (machine 2 0)).number ≡ 4
unfolding allocate_frame allocate_loop round get_frame_for_addr
run_first = refl

machine-IsValid : IsValid (machine 0 0)
machine-IsValid = record {
  fits = λ i p. ground arith;
  current = λ ne. ground arith;
  index_le = omega arith;
  next_le = omega arith;
}

allocate_frame-cases_example :
    IsValid (allocate_frame (machine 0 0)).allocator
    × (Hands (machine 0 0) (allocate_frame (machine 0 0))
        ⊎ Refuses (machine 0 0) (allocate_frame (machine 0 0)))
allocate_frame-cases_example = allocate_frame-cases machine-IsValid

machine-Apart : Apart area 2
machine-Apart i j p q = ground (arith)

machine-IsSwept : IsSwept (machine 0 0)
machine-IsSwept = record { swept = λ j p e below. ground (arith, below) }

abbrev caller : Caller
caller = record { string_at = λ a. []; arg = λ k. 0 }

allocate_frame_printing-cases_example :
    (u : Terminal) × (allocate_frame_printing caller (machine 0 0) screen
      ≡ ok (allocate_frame (machine 0 0), u))
    × (((allocate_frame (machine 0 0)).status ≡ success)
          × Prints screen u (type_text 10 alloc_message filled)
        ⊎ ((allocate_frame (machine 0 0)).status ≡ failure) × (u ≡ screen))
allocate_frame_printing-cases_example =
    allocate_frame_printing-cases caller machine-IsValid screen-Shows

allocations-Ascends_example :
    Ascends 0 (allocations 5 (machine 0 0))
    × All (Unreserved (machine 0 0)) (allocations 5 (machine 0 0))
allocations-Ascends_example = allocations-Ascends 5 machine-IsValid

allocate_frame-retype_example :
    ((allocate_frame (retype (λ i. 5) (machine 0 0))).status
      ≡ (allocate_frame (machine 0 0)).status)
    × ((allocate_frame (retype (λ i. 5) (machine 0 0))).number
        ≡ (allocate_frame (machine 0 0)).number)
    × ((allocate_frame (retype (λ i. 5) (machine 0 0))).allocator
        ≡ retype (λ i. 5) (allocate_frame (machine 0 0)).allocator)
allocate_frame-retype_example = allocate_frame-retype (λ i. 5) (machine 0 0)

-- the first area is used up, and the frames from 8 to 15 are of none
gap-IsValid : IsValid (machine 9 1)
gap-IsValid = record {
  fits = λ i p. ground arith;
  current = λ ne. ground arith;
  index_le = omega arith;
  next_le = omega arith;
}

allocate_frame-below_area_example :
    ((allocate_frame (machine 9 1)).status ≡ success)
    × (((allocate_frame (machine 9 1)).number + 1) * page_size ≤ 0x10000)
allocate_frame-below_area_example =
    allocate_frame-below_area gap-IsValid (ground arith) (omega arith) refl

-- the frames that are left are the kernel's
abbrev used_up : Allocator
used_up = record (machine 20 1) { kernel_start = 20; kernel_end = 23 }

used_up-IsValid : IsValid used_up
used_up-IsValid = record {
  fits = λ i p. ground arith;
  current = λ ne. ground arith;
  index_le = omega arith;
  next_le = omega arith;
}

used_up-IsSwept : IsSwept used_up
unfolding get_frame_for_addr
used_up-IsSwept = record { swept = λ j p e below. ground arith }

used_up-fails : (allocate_frame used_up).status ≡ failure
unfolding allocate_frame allocate_loop round get_frame_for_addr switch_area select_area choose
used_up-fails = refl

last_frame-area : 21 ≤ last_frame (area 1)
unfolding get_frame_for_addr
last_frame-area = omega arith

allocate_frame-exhausted_example : is_reserved used_up 21 ≡ true
allocate_frame-exhausted_example =
    allocate_frame-exhausted used_up-IsValid machine-Apart used_up-IsSwept 21 1 used_up-fails
      (omega arith) (omega arith) (ground arith) last_frame-area

-- what the boot loader hands over: one section of three pages, and a structure of 0x120 bytes
abbrev kernel_section : ElfSectionHeader
kernel_section = record {
  sh_name = 0;
  sh_type = 1;
  sh_flags = 0x6;
  sh_addr = 0x2000;
  sh_offset = 0;
  sh_size = 0x1800;
  sh_link = 0;
  sh_info = 0;
  sh_addralign = 0x1000;
  sh_entsize = 0;
}

abbrev booted : MultibootData
booted = record {
  start = record { address = 0x5000; total_size = 0x120 };
  memory_map = two_areas;
  elf_symbols = record {
    type_word = 9;
    size = 84;
    num = 1;
    entsize = 64;
    shndx = 0;
    sectionheaders = λ i. kernel_section;
  };
}

booted-init : init_allocator booted ≡ some (machine 0 0)
unfolding init_allocator init_counted select_area choose kernel_extent extend count_entries
    get_frame_for_addr
booted-init = refl

booted-IsUsable : IsUsable area 2
booted-IsUsable = record { fits = λ i p. ground arith; some_area = (0, omega arith, ground arith) }

booted-Kept : Kept booted 0x2345
booted-Kept =
    inl (0, omega arith, record { from = omega arith; to = omega arith; fits = omega arith })

init_allocator-IsValid_example : Started booted (machine 0 0)
init_allocator-IsValid_example = init_allocator-IsValid booted booted-init booted-IsUsable

allocations-spare_example : All (λ n. n ≢ 0x2345 / page_size) (allocations 6 (machine 0 0))
allocations-spare_example =
    allocations-spare booted booted-init 6 0x2345 booted-IsUsable booted-Kept

-- A frame that is given back is not handed out again.
run_deallocate : deallocate_frame 4 (machine 9 0) ≡ machine 9 0
unfolding deallocate_frame
run_deallocate = refl
