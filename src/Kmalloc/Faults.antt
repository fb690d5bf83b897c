-- ===== src/Kmalloc/Faults.antt =====
-- src/kmalloc.c: what happens when a block is given back twice, and when the heap is used up.
use os_c.Prelude.{
  ℕ, zero, suc, ◌+◌, ◌^◌, ◌<◌, ◌≡◌, ◌≢◌, refl, ap, ◌∙◌, ◌==◌, leb, false, List, ◌∷◌, codes, arith,
}
use os_c.Printf.Outcome.{ok, out_of_fuel}
use os_c.Kmalloc.{Heap, next, size, find_fit, allocate_memory, kmalloc, kfree}
use os_c.Kmalloc.Fit.{heap}
use os_c.Kmalloc.Reuse.{IsBlock, kfree-Freed}
use os_c.Kmalloc.Head.{kmalloc-Cut}

-- a node that is its own successor is never left
find_fit-cycle :
    (m : ℕ → ℕ) (node fuel bytes head : ℕ) (printed : List (List ℕ × ℕ))
    → next m node ≡ node
    → node ≢ 0
    → size m node < bytes
    → find_fit fuel bytes node (heap m head printed) ≡ out_of_fuel
unfolding find_fit
find_fit-cycle m node zero bytes head printed link ne small = refl
find_fit-cycle m node (suc fuel) bytes head printed link ne small =
    let said = (codes "Old size: %zx\n", size m node) ∷ printed in
    let other : (node == 0) ≡ false = ground (arith, ne) in
    let less : leb bytes (size m node) ≡ false = ground (arith, small) in
    rw (link, other, less) (find_fit-cycle m node fuel bytes head said link ne small)

-- After a block that does not overlap the header of the list's head has been given back twice,
-- `kmalloc` of more bytes than it has never ends: no number of rounds is enough.
pub kmalloc-double_free :
    (h : Heap) (node fuel bytes : ℕ)
    → IsBlock h node
    → size h.memory node < bytes
    → kmalloc fuel bytes (kfree (node + 16) (kfree (node + 16) h)) ≡ out_of_fuel
unfolding kmalloc allocate_memory find_fit
kmalloc-double_free h node zero bytes block small = refl
kmalloc-double_free h node (suc fuel) bytes block small =
    let once = kfree (node + 16) h in
    let f = kfree-Freed h node block in
    let block' : IsBlock once node = record {
      nonzero = block.nonzero;
      small = block.small;
      apart = rw f.head block.apart;
    } in
    let twice = kfree (node + 16) once in
    let g = kfree-Freed once node block' in
    let head : next twice.memory twice.free_list_head ≡ node =
      ap (λ a. next twice.memory a) g.head ∙ g.head_next in
    let link : next twice.memory node ≡ node =
      g.node_next ∙ ap (λ a. next once.memory a) f.head ∙ f.head_next in
    let less' : size twice.memory node < bytes = omega (arith, small, g.node_size, f.node_size) in
    let other : (node == 0) ≡ false = ground (arith, block.nonzero) in
    let less : leb bytes (size twice.memory node) ≡ false = ground (arith, less') in
    let asked = (codes "Required bytes %zx\n", bytes) ∷ twice.printed in
    let said = (codes "Old size: %zx\n", size twice.memory node) ∷ asked in
    let around =
      find_fit-cycle twice.memory node fuel bytes twice.free_list_head said link block.nonzero
        less' in
    rw (head, other, less, around)

-- While nothing is free, the new head does not wrap, and the head has fewer bytes than asked for
-- with a header, `kmalloc` hands the block out all the same, and the size of the new head is the
-- old one plus 2 ^ 64 less the bytes and the header.
pub kmalloc-exhausted :
    (h : Heap) (fuel bytes : ℕ)
    → next h.memory h.free_list_head ≡ 0
    → size h.memory h.free_list_head < bytes + 16
    → h.free_list_head + 16 + bytes + 16 < 2 ^ 64
    → (h' : Heap) × (kmalloc (suc fuel) bytes h ≡ ok (h.free_list_head + 16, h'))
      × (size h'.memory h.free_list_head ≡ bytes)
      × (size h'.memory h'.free_list_head + (bytes + 16) ≡ size h.memory h.free_list_head + 2 ^ 64)
kmalloc-exhausted h fuel bytes stop over room =
    let (h', done, c) = kmalloc-Cut h fuel bytes stop room in
    (h', done, c.block_size, omega (arith, c.head_size, over, room))
