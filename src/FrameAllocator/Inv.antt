-- ===== src/FrameAllocator/Inv.antt =====
-- The invariant of the allocator, and the measure by which `allocate_frame` ends.
use os_c.Prelude.{ℕ, ◌+◌, ◌-◌, ◌≤◌, ◌<◌, ◌^◌, ◌≡◌, ◌≢◌, Bool, ◌||◌, if◌then◌else◌, ◌==◌, arith}
use os_c.Multiboot.{MemoryMapEntry}
use os_c.FrameAllocator.{
  Allocator, current_entry, last_addr, within, get_frame_for_addr, enough_rounds,
}
use os_c.FrameAllocator.Area.{count_above, count_above-le}
use os_c.FrameAllocator.Select.{IsEligible}

-- Documented of a memory map: no area reaches past the end of the address space.
abbrev pub Fits : MemoryMapEntry → Type 0
Fits e = e.base_addr + e.length ≤ 2 ^ 64

pub record IsValid (a : Allocator) : Type 0 where
  pub fits : (i : ℕ) → i < a.num_entries → Fits (a.mem_map.memory_maps i)
  pub current : a.entry_index ≢ a.num_entries → IsEligible 0 (current_entry a)
  pub index_le : a.entry_index ≤ a.num_entries
  pub next_le : a.next_free_frame ≤ 2 ^ 52

-- the cursor and the area, with all else as in `a`
abbrev pub moved : Allocator → ℕ → ℕ → Allocator
moved a next index = record a { next_free_frame = next; entry_index = index }

-- a frame of the kernel or of the boot loader's structure
abbrev pub is_reserved : Allocator → ℕ → Bool
is_reserved a n = within a.kernel_start a.kernel_end n || within a.multiboot_start a.multiboot_end n

abbrev pub last_frame : MemoryMapEntry → ℕ
last_frame e = get_frame_for_addr (last_addr e)

-- A bound on the rounds that `allocate_frame` makes.
unfoldable pub rounds_left : Allocator → ℕ
rounds_left a =
    if a.entry_index == a.num_entries
    then 1
    else count_above a.mem_map.memory_maps (current_entry a).base_addr a.num_entries
      + (a.kernel_end + a.multiboot_end + 1 - a.next_free_frame)
      + 2

pub rounds_left-le : (a : Allocator) → rounds_left a ≤ enough_rounds a
unfolding rounds_left
rounds_left-le a =
    ground (arith, count_above-le a.mem_map.memory_maps (current_entry a).base_addr a.num_entries)

pub rounds_left_pos : (a : Allocator) → 0 < rounds_left a
unfolding rounds_left
rounds_left_pos a = ground arith

-- Without a wrap the last address is the one before the end.
pub last_addr_lem :
    (e : MemoryMapEntry) → Fits e → 0 < e.length → last_addr e ≡ e.base_addr + e.length - 1
last_addr_lem e h p = omega arith

pub last_frame-lt : (e : MemoryMapEntry) → last_frame e < 2 ^ 52
unfolding get_frame_for_addr
last_frame-lt e = omega arith
