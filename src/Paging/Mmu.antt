-- ===== src/Paging/Mmu.antt =====
-- src/paging.c, the functions that map pages: they read and write the tables through the mapping that the
-- tables make. The processor's walk is a parameter with what the processor documents of it. No
-- translation is cached in the model: the code flushes the TLB when it adds a table.
mod Tables
mod Step
mod Walks
mod Map
mod Pages
mod Remap
mod Fill
mod Tests
use os_c.Prelude.{
  ℕ, ◌+◌, ◌*◌, ◌/◌, ◌%◌, ◌^◌, ◌≡◌, leb, ◌==◌, if◌then◌else◌, Option, none, some, bit_or, page_size,
}
use os_c.Memory.{read64}
use os_c.FrameAllocator.{Allocator, Allocated, Status, allocate_frame, get_frame_start_addr}
use os_c.Printf.Outcome.{Result, ok, halted, fault, out_of_fuel, ◌>>=◌}
use os_c.Paging.{
  present_bit, writeable_bit, p4_table, entry_at, table_behind, set_page_table_entry,
  get_page_for_vaddr, get_p4_index, get_p3_index, get_p2_index, get_p1_index,
}

-- where the entry `i` of the table in the frame `t` stands in physical memory
abbrev pub slot : ℕ → ℕ → ℕ
slot t i = t * page_size + 8 * i

abbrev pub word_at : (ℕ → ℕ) → ℕ → ℕ → ℕ
word_at m t i = read64 m (slot t i)

-- An entry is present, and names the frame `f`.
pub record Leads (m : ℕ → ℕ) (t i f : ℕ) : Type 0 where
  pub present : word_at m t i % 2 ≡ 1
  pub frame : word_at m t i / 2 ^ 12 % 2 ^ 40 ≡ f

-- an entry for a table, not for a huge page
pub record LeadsOn (m : ℕ → ℕ) (t i f : ℕ) : Type 0 where
  pub leads : Leads m t i f
  pub small : word_at m t i / 2 ^ 7 % 2 ≡ 0

-- The processor's walk from the table in the frame `root`: the frame of a page, unless it faults.
pub record Mmu : Type 0 where
  pub walk : (ℕ → ℕ) → ℕ → ℕ → Option ℕ
  pub walks :
      (m : ℕ → ℕ) (root page t3 t2 t1 f : ℕ)
      → LeadsOn m root (page / 2 ^ 27 % 512) t3
      → LeadsOn m t3 (page / 2 ^ 18 % 512) t2
      → LeadsOn m t2 (page / 2 ^ 9 % 512) t1
      → Leads m t1 (page % 512) f
      → walk m root page ≡ some f

-- physical memory, the frame of the top table that the processor has, and the frame allocator
pub record Machine : Type 0 where
  pub memory : ℕ → ℕ
  pub root : ℕ
  pub allocator : Allocator

abbrev pub machine : (ℕ → ℕ) → ℕ → Allocator → Machine
machine memory root allocator = record { memory = memory; root = root; allocator = allocator }

abbrev pub in_frame : ℕ → Option ℕ → Result ℕ
in_frame vaddr none = fault
in_frame vaddr (some frame) = ok (frame * page_size + vaddr % page_size)

module _ (x : Mmu) where
  -- the physical address behind a virtual one
  abbrev pub physical : ℕ → Machine → Result ℕ
  physical vaddr s = in_frame vaddr (x.walk s.memory s.root (vaddr / page_size))

  unfoldable pub descend : ℕ → ℕ → Machine → Result ℕ
  descend table index s =
      let behind = (do
        a ← physical (entry_at table index) s
        ok (table_behind (read64 s.memory a) table index)) in
      if leb 512 index then ok 0 else behind

  unfoldable pub set_entry : ℕ → ℕ → ℕ → Machine → Result Machine
  set_entry entry frame flags s = do
    a ← physical entry s
    m ← set_page_table_entry a frame flags s.memory
    ok (record s { memory = m })

  -- what follows the allocation of a table; without a frame nothing is set
  unfoldable pub install : Status → ℕ → ℕ → ℕ → Machine → Result Machine
  install Status.success frame table index s =
      set_entry (entry_at table index) frame (bit_or present_bit writeable_bit) s
  install Status.failure frame table index s = ok s
  install Status.out_of_fuel frame table index s = out_of_fuel

  unfoldable pub create : ℕ → ℕ → Machine → Result Machine
  create table index s =
      let got = allocate_frame s.allocator in
      install got.status got.number table index (record s { allocator = got.allocator })

  unfoldable pub get_next_page_table_or_create : ℕ → ℕ → Machine → Result (ℕ × Machine)
  get_next_page_table_or_create table index s = do
    let made = create table index s
    tbl ← descend table index s
    s' ← if tbl == 0 then made else ok s
    next ← descend table index s'
    ok (next, s')

  unfoldable pub map_page_to_frame : ℕ → ℕ → ℕ → Machine → Result Machine
  map_page_to_frame page frame flags s = do
    (p3, s3) ← get_next_page_table_or_create p4_table (get_p4_index page) s
    (p2, s2) ← get_next_page_table_or_create p3 (get_p3_index page) s3
    (p1, s1) ← get_next_page_table_or_create p2 (get_p2_index page) s2
    set_entry (entry_at p1 (get_p1_index page)) frame (bit_or present_bit flags) s1

  -- A frame is mapped also where there is none left: the status is not read.
  unfoldable pub map_given : Status → ℕ → ℕ → ℕ → Machine → Result Machine
  map_given Status.success frame page flags s = map_page_to_frame page frame flags s
  map_given Status.failure frame page flags s = map_page_to_frame page frame flags s
  map_given Status.out_of_fuel frame page flags s = out_of_fuel

  unfoldable pub map_page : ℕ → ℕ → Machine → Result Machine
  map_page page flags s =
      let got = allocate_frame s.allocator in
      map_given got.status got.number page flags (record s { allocator = got.allocator })

  unfoldable pub identity_map_page : ℕ → ℕ → Machine → Result Machine
  identity_map_page frame flags s = do
    p ← get_page_for_vaddr (get_frame_start_addr frame)
    map_page_to_frame p frame flags s
