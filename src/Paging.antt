-- ===== src/Paging.antt =====
-- src/paging.c and src/paging.h: the entries of the page tables, the walk through them, and the page
-- that is unmapped. `m` is the memory that the kernel reads through virtual addresses; a table is its
-- address, and the entry 511 of the top table, which maps that table, is set up by src/arch/x86_64/boot.s.
pub mod Index
pub mod Recursive
pub mod Entry
mod Walk
pub mod Remap
mod Clear
mod Mmu
mod Tests
use os_c.Prelude.{
  ℕ, zero, suc, ◌+◌, ◌-◌, ◌*◌, ◌/◌, ◌%◌, ◌^◌, ltb, leb, ◌==◌, if◌then◌else◌, not, ◌||◌, Bool, true,
  false, Option, none, some, add64, mul64, shl64, shr, u16, u64, bit_and, bit_or, page_size,
}
use os_c.Memory.{read64, write64}
use os_c.FrameAllocator.{Allocator, get_frame_for_addr, get_frame_start_addr, deallocate_frame}
use os_c.Printf.Outcome.{Result, ok, halted, fault, out_of_fuel, ◌>>=◌, ◌>>◌, assert}

abbrev pub present_bit : ℕ
present_bit = 0x1

abbrev pub writeable_bit : ℕ
writeable_bit = 0x2

abbrev pub huge_bit : ℕ
huge_bit = 0x80

abbrev pub physical_addr_mask : ℕ
physical_addr_mask = 0x000ffffffffff000

abbrev pub page_table_entry_count : ℕ
page_table_entry_count = 512

abbrev pub p4_table : ℕ
p4_table = 0xfffffffffffff000

-- `!x`
abbrev pub logical_not : ℕ → ℕ
logical_not x = if x == 0 then 1 else 0

-- `&table->entries[index]`
abbrev pub entry_at : ℕ → ℕ → ℕ
entry_at table index = add64 table (8 * index)

pub set_unused : ℕ → (ℕ → ℕ) → ℕ → ℕ
set_unused entry m = write64 m entry 0

-- the loop of `init_page_table`, from the entry `i` on
pub clear_entries : ℕ → ℕ → ℕ → (ℕ → ℕ) → ℕ → ℕ
clear_entries zero i table m = m
clear_entries (suc n) i table m = clear_entries n (i + 1) table (set_unused (entry_at table i) m)

pub init_page_table : ℕ → (ℕ → ℕ) → ℕ → ℕ
init_page_table table m = clear_entries page_table_entry_count 0 table m

-- the address of the next table, from the entry's word; 0 is `NULL`
abbrev pub table_behind : ℕ → ℕ → ℕ → ℕ
table_behind word table index =
    if not (bit_and word (bit_or present_bit (logical_not huge_bit)) == 0)
    then bit_or (shl64 table 9) (index * 2 ^ 12)
    else 0

pub descened_page_table : (ℕ → ℕ) → ℕ → ℕ → ℕ
descened_page_table m table index =
    if leb 512 index then 0 else table_behind (read64 m (entry_at table index)) table index

pub set_page_table_entry : ℕ → ℕ → ℕ → (ℕ → ℕ) → Result (ℕ → ℕ)
set_page_table_entry entry frame flags m =
    assert (bit_and (logical_not physical_addr_mask) (get_frame_start_addr frame) == 0)
    >> ok (write64 m entry (bit_or (bit_and (get_frame_start_addr frame) physical_addr_mask) flags))

-- `none` where the code returns -1 and leaves the frame as it is
pub get_physical_frame : (ℕ → ℕ) → ℕ → Option ℕ
get_physical_frame m entry =
    if not (bit_and (read64 m entry) present_bit == 0)
    then some (get_frame_for_addr (bit_and (read64 m entry) physical_addr_mask))
    else none

pub get_page_for_vaddr : ℕ → Result ℕ
get_page_for_vaddr vaddr =
    assert (ltb vaddr 0x0000800000000000 || leb 0xffff800000000000 vaddr) >> ok (vaddr / page_size)

pub get_p4_index : ℕ → ℕ
get_p4_index p = u16 (bit_and (shr p 27) 0x1ff)

pub get_p3_index : ℕ → ℕ
get_p3_index p = u16 (bit_and (shr p 18) 0x1ff)

pub get_p2_index : ℕ → ℕ
get_p2_index p = u16 (bit_and (shr p 9) 0x1ff)

pub get_p1_index : ℕ → ℕ
get_p1_index p = u16 (bit_and p 0x1ff)

-- a table that is read through; through `NULL` it has no defined result
abbrev pub deref : ℕ → Result ℕ
deref table = if table == 0 then fault else ok table

-- The test of the entry in the third table does nothing.
pub translate_page : (ℕ → ℕ) → ℕ → Result (Option ℕ)
translate_page m page = do
  p3 ← deref (descened_page_table m p4_table (get_p4_index page))
  p2 ← deref (descened_page_table m p3 (get_p3_index page))
  let entry = entry_at p2 (get_p2_index page)
  let small = (do
    p1 ← deref (descened_page_table m p2 (get_p2_index page))
    ok (get_physical_frame m (entry_at p1 (get_p1_index page))))
  if not (bit_and (read64 m entry) huge_bit == 0)
      then ok (elim (get_physical_frame m entry) [
        | none ↦ none
        | some frame ↦ some (add64 frame (get_p1_index page))
      ])
      else small

-- A frame that is not found is never set, and then read.
pub physical_address : ℕ → Option ℕ → Result ℕ
physical_address vaddr none = fault
physical_address vaddr (some frame) = ok (add64 (mul64 frame page_size) (vaddr % page_size))

pub translate : (ℕ → ℕ) → ℕ → Result ℕ
translate m vaddr = do
  page ← get_page_for_vaddr vaddr
  frame ← translate_page m page
  physical_address vaddr frame

-- What `unmap_page` hands back: `none` is a frame that was never set.
pub unmap_page : ℕ → (ℕ → ℕ) → Result ((ℕ → ℕ) × Option ℕ)
unmap_page page m = do
  p3 ← deref (descened_page_table m p4_table (get_p4_index page))
  p2 ← deref (descened_page_table m p3 (get_p3_index page))
  p1 ← deref (descened_page_table m p2 (get_p2_index page))
  let m' = set_unused (entry_at p1 (get_p1_index page)) m
  ok (m', get_physical_frame m' (entry_at p1 (get_p1_index page)))
