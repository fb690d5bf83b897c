-- ===== src/Kmalloc/Reuse.antt =====
-- src/kmalloc.c, `kfree`: a block that is given back is the next that fits, with its bytes as they were.
use os_c.Prelude.{
  ℕ, suc, ◌+◌, ◌^◌, ◌≤◌, ◌<◌, ◌≡◌, ◌≢◌, refl, sym, ap, ◌∙◌, ◌⊎◌, ltb, leb, ◌==◌, codes, true, false,
  add64, sub64, arith,
}
use os_c.Memory.{read64-write64, read64-apart, read64-bound, write64-outside}
use os_c.Printf.Outcome.{ok}
use os_c.Kmalloc.{
  Heap, next, size, set_next, set_size, say, at, find_fit, take, take_after, allocate_memory,
  kmalloc, kfree, minimum_alloc_size, node_size,
}
use os_c.Kmalloc.Fit.{Apart}

-- A block that can be given back: its header does not wrap, and stands apart from the head's.
pub record IsBlock (h : Heap) (node : ℕ) : Type 0 where
  pub nonzero : node ≢ 0
  pub small : node + 16 < 2 ^ 64
  pub apart : Apart h.free_list_head node

get_free_node-add : (node : ℕ) → node + 16 < 2 ^ 64 → sub64 (node + 16) node_size ≡ node
get_free_node-add node p = omega arith

-- what `kfree` makes of the two headers
pub record Freed (h : Heap) (node : ℕ) (h' : Heap) : Type 0 where
  pub head : h'.free_list_head ≡ h.free_list_head
  pub head_next : next h'.memory h.free_list_head ≡ node
  pub node_next : next h'.memory node ≡ next h.memory h.free_list_head
  pub head_size : size h'.memory h.free_list_head ≡ size h.memory h.free_list_head
  pub node_size : size h'.memory node ≡ size h.memory node
  pub elsewhere :
      (b : ℕ)
      → (b < h.free_list_head) ⊎ (h.free_list_head + 8 ≤ b)
      → (b < node) ⊎ (node + 8 ≤ b)
      → h'.memory b ≡ h.memory b

-- `kfree` puts the block's node behind the head of the list, and writes nothing else than those links.
pub kfree-Freed : (h : Heap) (node : ℕ) → IsBlock h node → Freed h node (kfree (node + 16) h)
unfolding kfree
kfree-Freed h node ok_node =
    let head = h.free_list_head in
    let m = set_next node (next h.memory head) h.memory in
    let apart = ok_node.apart in
    rw (get_free_node-add node ok_node.small) record {
      head = refl;
      head_next = read64-write64 m head node (omega (arith, ok_node.small));
      node_next =
          read64-apart m node head node (ground arith)
          ∙ read64-write64 h.memory node (next h.memory head) (read64-bound h.memory head);
      head_size =
          read64-apart m (head + 8) head node (ground arith)
          ∙ read64-apart h.memory (head + 8) node (next h.memory head) (ground arith);
      node_size =
          read64-apart m (node + 8) head node (ground arith)
          ∙ read64-apart h.memory (node + 8) node (next h.memory head) (ground arith);
      elsewhere = λ b p q.
          write64-outside m head node b p ∙ write64-outside h.memory node (next h.memory head) b q;
    }

-- the memory once the block behind the head is taken whole
abbrev taken_whole : Heap → ℕ → ℕ → ℕ
taken_whole h node =
    set_next h.free_list_head (next h.memory node)
      (set_size node (size h.memory node) (set_next node 0 h.memory))

kmalloc-whole :
    (h : Heap) (fuel node bytes : ℕ)
    → next h.memory h.free_list_head ≡ node
    → node ≢ 0
    → bytes ≤ size h.memory node
    → size h.memory node < bytes + minimum_alloc_size
    → (h' : Heap) × (kmalloc (suc fuel) bytes h ≡ ok (add64 node node_size, h'))
      × (h'.memory ≡ taken_whole h node)
      × (h'.free_list_head ≡ h.free_list_head)
unfolding kmalloc allocate_memory find_fit take take_after
kmalloc-whole h fuel node bytes link ne fits whole =
    let bound = read64-bound h.memory (node + 8) in
    let other : (node == 0) ≡ false = ground (arith, ne) in
    let large : leb bytes (size h.memory node) ≡ true = ground (arith, fits) in
    let rest : ltb (sub64 (size h.memory node) bytes) minimum_alloc_size ≡ true =
      ground (arith, bound, fits, whole) in
    let asked = say (codes "Required bytes %zx\n") bytes h in
    let found =
      say (codes "Not from head, old node: %zx\n") node
        (say (codes "Old size: %zx\n") (size h.memory node) asked) in
    (at found (taken_whole h node), rw (link, other, large, link, rest), refl, refl)

record Taken (h : Heap) (node : ℕ) (m : ℕ → ℕ) : Type 0 where
  head_next : next m h.free_list_head ≡ next h.memory node
  head_size : size m h.free_list_head ≡ size h.memory h.free_list_head
  node_size : size m node ≡ size h.memory node
  elsewhere :
      (b : ℕ)
      → (b < h.free_list_head) ⊎ (h.free_list_head + 8 ≤ b)
      → (b < node) ⊎ (node + 16 ≤ b)
      → m b ≡ h.memory b

taken_whole-Taken :
    (h : Heap) (node : ℕ) → Apart h.free_list_head node → Taken h node (taken_whole h node)
taken_whole-Taken h node apart =
    let head = h.free_list_head in
    let m = set_next node 0 h.memory in
    let n = size h.memory node in
    let m' = set_size node n m in
    let after = next h.memory node in
    record {
      head_next = read64-write64 m' head after (read64-bound h.memory node);
      head_size =
          read64-apart m' (head + 8) head after (ground arith)
          ∙ read64-apart m (head + 8) (node + 8) n (ground arith)
          ∙ read64-apart h.memory (head + 8) node 0 (ground arith);
      node_size =
          read64-apart m' (node + 8) head after (ground arith)
          ∙ read64-write64 m (node + 8) n (read64-bound h.memory (node + 8));
      elsewhere = λ b p q.
          write64-outside m' head after b p
          ∙ write64-outside m (node + 8) n b (ground arith)
          ∙ write64-outside h.memory node 0 b (ground arith);
    }

-- What `kmalloc` after `kfree` leaves of the heap as it was.
pub record Restored (h : Heap) (node : ℕ) (h' : Heap) : Type 0 where
  pub head : h'.free_list_head ≡ h.free_list_head
  pub head_next : next h'.memory h.free_list_head ≡ next h.memory h.free_list_head
  pub head_size : size h'.memory h.free_list_head ≡ size h.memory h.free_list_head
  pub node_size : size h'.memory node ≡ size h.memory node
  pub elsewhere :
      (b : ℕ)
      → (b < h.free_list_head) ⊎ (h.free_list_head + 8 ≤ b)
      → (b < node) ⊎ (node + 16 ≤ b)
      → h'.memory b ≡ h.memory b

-- If a block that does not overlap the header of the list's head is given back by `kfree`, then
-- `kmalloc` of a size that fits in it and would leave too little for a block of its own hands out
-- the same block: the list and the sizes are as they were, and so is every byte outside of the two
-- headers.
pub kmalloc-kfree :
    (h : Heap) (node fuel bytes : ℕ)
    → IsBlock h node
    → bytes ≤ size h.memory node
    → size h.memory node < bytes + minimum_alloc_size
    → (h' : Heap) × (kmalloc (suc fuel) bytes (kfree (node + 16) h) ≡ ok (node + 16, h'))
      × Restored h node h'
kmalloc-kfree h node fuel bytes block fits whole =
    let freed = kfree (node + 16) h in
    let f = kfree-Freed h node block in
    let (h', done, memory, head) =
      kmalloc-whole freed fuel node bytes (ap (λ a. next freed.memory a) f.head ∙ f.head_next)
        block.nonzero (omega (arith, fits, f.node_size)) (omega (arith, whole, f.node_size)) in
    let addr : add64 node node_size ≡ node + 16 = omega (arith, block.small) in
    let t = taken_whole-Taken freed node (rw f.head block.apart) in
    (
      h',
      done ∙ ap (λ a. ok (a, h')) addr,
      record {
        head = head ∙ f.head;
        head_next =
            rw memory
              (ap (λ a. next (taken_whole freed node) a) (sym f.head) ∙ t.head_next ∙ f.node_next);
        head_size = rw memory (
            ap (λ a. size (taken_whole freed node) a) (sym f.head)
            ∙ t.head_size
            ∙ ap (λ a. size freed.memory a) f.head
            ∙ f.head_size);
        node_size = rw memory (t.node_size ∙ f.node_size);
        elsewhere =
            λ b p q. rw memory (t.elsewhere b (rw f.head p) q ∙ f.elsewhere b p (ground arith));
      },
    )
