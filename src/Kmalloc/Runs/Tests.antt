-- ===== src/Kmalloc/Runs/Tests.antt =====
-- src/kmalloc.c: requests to the heap as `init_heap` leaves it, the ones that kernel.c tries.
use os_c.Prelude.{◌≡◌, refl, List, [], ◌∷◌, some, arith}
use os_c.Printf.Outcome.{ok}
use os_c.Kmalloc.{Heap, kmalloc, kfree, krealloc}
use os_c.Kmalloc.Blocks.{block, Layout, layout, taken, remains, fit, alloc, extract, release}
use os_c.Kmalloc.Represent.{Represents}
use os_c.Kmalloc.Refine.{Returned, kmalloc-refines}
use os_c.Kmalloc.Release.{Released, kfree-refines}
use os_c.Kmalloc.Grow.{Moved, krealloc-moves}
use os_c.Kmalloc.Runs.{Request, malloc, free, serve, serve_all, empty, init_heap-runs}
use mathlib.Core.Option.{bind}

abbrev zeroed : Heap
zeroed = record { memory = λ a. 0; free_list_head = 0; printed = [] }

-- three blocks, and the second is given back
abbrev requests : List Request
requests = malloc 0x100 ∷ malloc 0x200 ∷ malloc 0x100 ∷ free 0x40000110 ∷ []

abbrev three : Layout
three =
    layout (block 0x40000110 0x200 ∷ []) (block 0x40000320 0x100 ∷ block 0x40000000 0x100 ∷ [])
      0x40000430 0x18bd0

three-served : serve_all requests empty ≡ some three
unfolding serve_all serve alloc fit taken remains extract release bind
three-served = refl

abbrev used_heap : Heap
used_heap = (init_heap-runs 5 requests zeroed three (omega arith) three-served).0

used_heap-Represents : Represents used_heap.memory used_heap.free_list_head three
used_heap-Represents = (init_heap-runs 5 requests zeroed three (omega arith) three-served).2

-- the free block is split
abbrev four : Layout
four =
    layout (block 0x40000140 0x1d0 ∷ [])
      (block 0x40000110 0x20 ∷ block 0x40000320 0x100 ∷ block 0x40000000 0x100 ∷ []) 0x40000430
      0x18bd0

four-served : alloc 0x20 three ≡ some (block 0x40000110 0x20, four)
unfolding alloc fit taken remains
four-served = refl

kmalloc-refines_example :
    (h' : Heap) × (kmalloc 2 0x20 used_heap ≡ ok (0x40000120, h'))
    × Returned used_heap 0x20 three (block 0x40000110 0x20) four h'
kmalloc-refines_example =
    kmalloc-refines used_heap 2 0x20 three four (block 0x40000110 0x20) used_heap-Represents
      (omega arith) four-served

-- the block that was handed out first is given back
abbrev one_left : Layout
one_left =
    layout (block 0x40000000 0x100 ∷ block 0x40000110 0x200 ∷ []) (block 0x40000320 0x100 ∷ [])
      0x40000430 0x18bd0

three-released : release 0x40000000 three ≡ some one_left
unfolding release extract
three-released = refl

kfree-refines_example : Released used_heap one_left (kfree 0x40000010 used_heap)
kfree-refines_example =
    kfree-refines used_heap 0x40000000 three one_left used_heap-Represents three-released

-- the block that was handed out first has to grow
abbrev grown : Layout
grown =
    layout (block 0x400002a0 0x70 ∷ [])
      (block 0x40000110 0x180 ∷ block 0x40000320 0x100 ∷ block 0x40000000 0x100 ∷ []) 0x40000430
      0x18bd0

three-grown : alloc 0x180 three ≡ some (block 0x40000110 0x180, grown)
unfolding alloc fit taken remains
three-grown = refl

three-extracted :
    extract 0x40000000 three.used ≡ some (block 0x40000000 0x100, block 0x40000320 0x100 ∷ [])
unfolding extract
three-extracted = refl

krealloc-moves_example :
    (h' : Heap) × (krealloc 2 0x40000010 0x180 used_heap ≡ ok (0x40000120, h'))
    × Moved used_heap
        (block 0x40000000 0x100)
        (block 0x40000110 0x180)
        (block 0x40000320 0x100 ∷ [])
        grown
        h'
krealloc-moves_example =
    krealloc-moves used_heap 2 0x180 three grown (block 0x40000000 0x100) (block 0x40000110 0x180)
      (block 0x40000320 0x100 ∷ []) used_heap-Represents (omega arith) three-extracted (omega arith)
      three-grown
