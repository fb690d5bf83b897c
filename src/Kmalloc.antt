-- ===== src/Kmalloc.antt =====
-- src/kmalloc.c, the heap. A free node stands in front of the bytes that it describes: the address of
-- the next node, and the number of bytes. What `terminal_printf` is called with is kept as a list of
-- its calls, the last first.
mod Fit
mod Reuse
mod Head
mod Faults
mod Copy
mod Blocks
mod Parts
mod Laid
mod Linked
mod Taking
mod Represent
mod Refine
mod Release
mod Runs
mod Grow
mod Tests
use os_c.Prelude.{
  ℕ, zero, suc, ◌+◌, ◌-◌, ◌*◌, ◌/◌, ltb, leb, ◌==◌, if◌then◌else◌, not, List, [], ◌∷◌, Option, none,
  some, add64, sub64, u64, codes, page_size,
}
use os_c.Memory.{store, read64, write64}
use os_c.Printf.Outcome.{Result, ok, halted, fault, out_of_fuel, ◌>>=◌}

abbrev pub heap_start_addr : ℕ
heap_start_addr = 4096 * 512 * 512

abbrev pub heap_size : ℕ
heap_size = 100 * 1024

-- `sizeof(struct free_node)`
abbrev pub node_size : ℕ
node_size = 16

abbrev pub minimum_alloc_size : ℕ
minimum_alloc_size = node_size + 2 * 8

abbrev pub next : (ℕ → ℕ) → ℕ → ℕ
next m node = read64 m node

abbrev pub size : (ℕ → ℕ) → ℕ → ℕ
size m node = read64 m (node + 8)

abbrev pub set_next : ℕ → ℕ → (ℕ → ℕ) → ℕ → ℕ
set_next node n m = write64 m node n

abbrev pub set_size : ℕ → ℕ → (ℕ → ℕ) → ℕ → ℕ
set_size node n m = write64 m (node + 8) n

pub record Heap : Type 0 where
  pub memory : ℕ → ℕ
  pub free_list_head : ℕ
  pub printed : List (List ℕ × ℕ)

abbrev pub say : List ℕ → ℕ → Heap → Heap
say text n h = record h { printed = (text, n) ∷ h.printed }

abbrev pub at : Heap → (ℕ → ℕ) → Heap
at h m = record h { memory = m }

abbrev pub get_free_node_from_addr : ℕ → ℕ
get_free_node_from_addr addr = sub64 addr node_size

-- the loop of `init_heap`: the pages that it maps
pub heap_pages : ℕ → ℕ → List ℕ
heap_pages zero addr = []
heap_pages (suc n) addr =
    let rest = heap_pages n (addr + page_size) in
    if ltb addr (heap_start_addr + heap_size) then addr / page_size ∷ rest else []

pub say_pages : List ℕ → Heap → Heap
say_pages [] h = h
say_pages (p ∷ pages) h = say_pages pages (say (codes "Mapping page %#x\n") (p * page_size) h)

-- `init_heap` on the memory as it is once the pages are mapped
pub init_heap : Heap → Heap
init_heap h =
    let mapped = say_pages (heap_pages (heap_size / page_size + 1) heap_start_addr) h in
    let head = heap_start_addr in
    record mapped {
      free_list_head = head;
      memory = set_size head heap_size (set_next head 0 mapped.memory);
    }

-- The loop of `allocate_memory` finds the node before the first one that is large enough.
pub find_fit : ℕ → ℕ → ℕ → Heap → Result (Option ℕ × Heap)
find_fit zero required node h = out_of_fuel
find_fit (suc fuel) required node h =
    let after = next h.memory node in
    let said = say (codes "Old size: %zx\n") (size h.memory after) h in
    let rest = find_fit fuel required after said in
    if after == 0
    then ok (none, h)
    else if leb required (size h.memory after)
    then ok (some node, said)
    else rest

-- the body of the loop for the node behind `node`: split, if the rest can hold a block, or taken whole
pub take_after : ℕ → ℕ → Heap → ℕ × Heap
take_after node required h =
    let said = say (codes "Not from head, old node: %zx\n") (next h.memory node) h in
    let old = next h.memory node in
    let after = next h.memory old in
    let left = sub64 (size h.memory old) required in
    if ltb left minimum_alloc_size
    then (let m = set_size old (size h.memory old) (set_next old 0 h.memory) in
        (old, at said (set_next node after m)))
    else (let new_next = add64 (add64 old node_size) required in
        let said' =
          say (codes "New next node: %zx\n") new_next
            (say (codes "New free bytes: %zx\n") left said) in
        let m = set_size new_next (sub64 left node_size) h.memory in
        let m' = set_next new_next (next m old) m in
        let m'' = set_size old required (set_next old 0 m') in
        (old, at said' (set_next node new_next m'')))

pub take_head : ℕ → Heap → ℕ × Heap
take_head required h =
    let said = say (codes "From head\n") 0 h in
    let old = h.free_list_head in
    let new = add64 (add64 old node_size) required in
    let m = set_size new (sub64 (sub64 (size h.memory old) required) node_size) h.memory in
    let m' = set_next new (next m old) m in
    let m'' = set_size old required (set_next old 0 m') in
    (old, record said { memory = m''; free_list_head = new })

pub take : Option ℕ → ℕ → Heap → ℕ × Heap
take none required h = take_head required h
take (some node) required h = take_after node required h

pub allocate_memory : ℕ → ℕ → Heap → Result (ℕ × Heap)
allocate_memory fuel required h = do
  (place, found) ←
      find_fit fuel required h.free_list_head (say (codes "Required bytes %zx\n") required h)
  ok (take place required found)

pub kmalloc : ℕ → ℕ → Heap → Result (ℕ × Heap)
kmalloc fuel bytes h = do (node, h') ← allocate_memory fuel bytes h; ok (add64 node node_size, h')

-- the loop of `kmemcpy`, from byte `i` on
pub copy_from : ℕ → ℕ → ℕ → ℕ → (ℕ → ℕ) → ℕ → ℕ
copy_from zero i dest src m = m
copy_from (suc n) i dest src m = copy_from n (i + 1) dest src (store m (dest + i) (m (src + i)))

pub kmemcpy : ℕ → ℕ → ℕ → Heap → Heap
kmemcpy dest src bytes h = at h (copy_from bytes 0 dest src h.memory)

pub kfree : ℕ → Heap → Heap
kfree addr h =
    let node = get_free_node_from_addr addr in
    let m = set_next node (next h.memory h.free_list_head) h.memory in
    at (say (codes "Free node base %zx\n") node h) (set_next h.free_list_head node m)

pub krealloc : ℕ → ℕ → ℕ → Heap → Result (ℕ × Heap)
krealloc fuel addr bytes h =
    let node = get_free_node_from_addr addr in
    let moved = (do
      (new_addr, h') ← kmalloc fuel bytes h
      ok (new_addr, kfree addr (kmemcpy new_addr addr (size h'.memory node) h'))) in
    if leb bytes (size h.memory node) then ok (addr, h) else moved
