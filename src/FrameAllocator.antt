-- ===== src/FrameAllocator.antt =====
-- src/frame_allocator.c: the allocator of physical frames, a cursor that moves up through the memory
-- map. `frame->number = n` is a returned number, and the global `allocator` is passed along. The
-- lines that print a trace are left out: they change nothing that the allocator reads.
pub mod Area
pub mod Select
pub mod Inv
pub mod Step
pub mod Allocate
pub mod Faults
pub mod Message
pub mod Sweep
pub mod Init
pub mod Sequence
pub mod Tests
use os_c.Prelude.{
  ℕ, zero, suc, ◌+◌, ◌-◌, ◌*◌, ◌/◌, ◌^◌, Bool, true, false, ◌&&◌, Option, none, some, ltb, leb,
  ◌==◌, if◌then◌else◌, add64, sub64, mul64, page_size,
}
use os_c.Multiboot.{MemoryMapEntry, MemoryMap, ElfSectionHeader, ElfSymbols, MultibootData}
use os_c.Multiboot.{MultibootStart}

pub record Allocator : Type 0 where
  pub next_free_frame : ℕ
  pub mem_map : MemoryMap
  pub entry_index : ℕ
  pub num_entries : ℕ
  pub kernel_start : ℕ
  pub kernel_end : ℕ
  pub multiboot_start : ℕ
  pub multiboot_end : ℕ

unfoldable pub get_frame_for_addr : ℕ → ℕ
get_frame_for_addr addr = addr / page_size

unfoldable pub get_frame_start_addr : ℕ → ℕ
get_frame_start_addr number = mul64 number page_size

abbrev pub uint64_max : ℕ
uint64_max = 2 ^ 64 - 1

-- the pair `next_min_addr`, `allocator.entry_index` of the loops over the memory map
pub record Choice : Type 0 where
  pub addr : ℕ
  pub index : ℕ

-- The body of the loop in `switch_area`; `init_allocator` has it with no lower bound.
unfoldable pub choose : ℕ → MemoryMapEntry → ℕ → Choice → Choice
choose min_addr e i best =
    if leb min_addr e.base_addr && leb page_size e.length && ltb e.base_addr best.addr
    then record { addr = e.base_addr; index = i }
    else best

-- the rounds from `i` on, as many as the first number says
unfoldable pub select_area : (ℕ → MemoryMapEntry) → ℕ → ℕ → ℕ → Choice → Choice
select_area maps min_addr zero i best = best
select_area maps min_addr (suc n) i best =
    select_area maps min_addr n (i + 1) (choose min_addr (maps i) i best)

-- `kernel_start_addr` and `kernel_end_addr`
pub record Extent : Type 0 where
  pub first : ℕ
  pub last : ℕ

pub extend : ElfSectionHeader → Extent → Extent
extend header k =
    let end_addr = add64 header.sh_size header.sh_addr in
    record {
      first =
          if ltb 0 header.sh_size && ltb header.sh_addr k.first then header.sh_addr else k.first;
      last = if ltb k.last end_addr then end_addr else k.last;
    }

pub kernel_extent : (ℕ → ElfSectionHeader) → ℕ → ℕ → Extent → Extent
kernel_extent headers zero i k = k
kernel_extent headers (suc n) i k = kernel_extent headers n (i + 1) (extend (headers i) k)

-- `none` is the trap of the division by an `entry_size` of zero.
pub count_entries : MemoryMap → Option ℕ
count_entries m = if m.entry_size == 0 then none else some (sub64 m.size 16 / m.entry_size)

abbrev pub first_area : MemoryMap → ℕ → Choice
first_area m n = select_area m.memory_maps 0 n 0 (record { addr = uint64_max; index = 0 })

abbrev pub kernel_of : ElfSymbols → Extent
kernel_of s = kernel_extent s.sectionheaders s.num 0 (record { first = uint64_max; last = 0 })

-- `init_allocator` once the entries are counted
pub init_counted : MultibootData → ℕ → Allocator
init_counted d n =
    let kernel = kernel_of d.elf_symbols in
    record {
      next_free_frame = 0;
      mem_map = d.memory_map;
      entry_index = (first_area d.memory_map n).index;
      num_entries = n;
      kernel_start = get_frame_for_addr kernel.first;
      kernel_end = get_frame_for_addr kernel.last;
      multiboot_start = get_frame_for_addr d.start.address;
      multiboot_end = get_frame_for_addr (add64 d.start.address d.start.total_size);
    }

pub init_allocator : MultibootData → Option Allocator
init_allocator d = elim (count_entries d.memory_map) [
  | none ↦ none
  | some n ↦ some (init_counted d n)
]

abbrev pub current_entry : Allocator → MemoryMapEntry
current_entry a = a.mem_map.memory_maps a.entry_index

-- `entry->base_addr + entry->length - 1`
abbrev pub last_addr : MemoryMapEntry → ℕ
last_addr e = sub64 (add64 e.base_addr e.length) 1

unfoldable pub switch_area : Allocator → Allocator
switch_area a = record a {
  entry_index =
      (select_area a.mem_map.memory_maps (last_addr (current_entry a)) a.num_entries 0
        (record { addr = uint64_max; index = a.num_entries })).index;
}

abbrev pub within : ℕ → ℕ → ℕ → Bool
within first last index = leb first index && leb index last

abbrev pub skip_frame : Allocator → Allocator
skip_frame a = record a { next_free_frame = add64 a.next_free_frame 1 }

-- What one round of the `do` loop does: it returns, or it goes round again.
pub data Round : Type 0 where
  failed : Round
  found : ℕ → Allocator → Round
  again : Allocator → Round

unfoldable pub round : Allocator → Round
round a =
    if a.entry_index == a.num_entries
    then failed
    else if ltb (get_frame_for_addr (last_addr (current_entry a))) a.next_free_frame
    then again (switch_area a)
    else if within a.kernel_start a.kernel_end a.next_free_frame
    then again (skip_frame a)
    else if within a.multiboot_start a.multiboot_end a.next_free_frame
    then again (skip_frame a)
    else found a.next_free_frame (skip_frame a)

-- The status of `allocate_frame` is 0 or -1. `out_of_fuel` is the model's own.
pub data Status : Type 0 where
  success : Status
  failure : Status
  out_of_fuel : Status

pub record Allocated : Type 0 where
  pub status : Status
  pub number : ℕ
  pub allocator : Allocator

unfoldable pub allocate_loop : ℕ → Allocator → Allocated
allocate_loop zero a = record { status = out_of_fuel; number = 0; allocator = a }
allocate_loop (suc fuel) a = elim (round a) [
  | failed ↦ record { status = failure; number = 0; allocator = a }
  | found n a' ↦ record { status = success; number = n; allocator = a' }
  | again a' ↦ allocate_loop fuel a'
]

-- A round passes a reserved frame or takes an area that was not taken before, so this is enough.
abbrev pub enough_rounds : Allocator → ℕ
enough_rounds a = a.kernel_end + a.multiboot_end + a.num_entries + 4

unfoldable pub allocate_frame : Allocator → Allocated
allocate_frame a = allocate_loop (enough_rounds a) a

pub deallocate_frame : ℕ → Allocator → Allocator
deallocate_frame number a = a
