-- ===== src/Kmalloc/Tests.antt =====
-- src/kmalloc.c: a heap with one free node behind its head.
use os_c.Prelude.{ℕ, ◌+◌, ◌≡◌, refl, inr, [], ◌∷◌, arith, ◌^◌}
use os_c.Memory.{read_bytes, write_bytes, read64, write64, store}
use os_c.Printf.Outcome.{ok, out_of_fuel}
use os_c.Kmalloc.{krealloc, Heap, next, size, set_next, set_size, kmalloc, kfree}
use os_c.Kmalloc.Fit.{Chain, chain_end, chain_link}
use os_c.Kmalloc.Reuse.{IsBlock, Restored, kmalloc-kfree}
use os_c.Kmalloc.Faults.{kmalloc-double_free, kmalloc-exhausted}

abbrev head : ℕ
head = 0x40002000

abbrev node : ℕ
node = 0x40001000

-- the head has 0x100 bytes, and the node behind it 0x40
abbrev one_free : Heap
one_free = record {
  memory = set_next node 0 (set_size node 0x40 (set_next head node (set_size head 0x100 (λ a. 0))));
  free_list_head = head;
  printed = [];
}

one_free-Chain : Chain one_free.memory head (node ∷ [])
unfolding read64 read_bytes write64 write_bytes store
one_free-Chain =
    chain_link head node [] refl (ground arith) (inr (omega arith)) (chain_end node refl)

-- a block of 0x20 bytes that is handed out, and nothing free
abbrev one_block : Heap
one_block = record {
  memory = set_next head 0 (set_size node 0x20 (set_size head 0x100 (λ a. 0)));
  free_list_head = head;
  printed = [];
}

one_block-IsBlock : IsBlock one_block node
one_block-IsBlock = record {
  nonzero = ground arith;
  small = omega arith;
  apart = inr (omega arith);
}

one_block-size : size one_block.memory node ≡ 0x20
unfolding read64 read_bytes write64 write_bytes store
one_block-size = refl

one_block-next : next one_block.memory head ≡ 0
unfolding read64 read_bytes write64 write_bytes store
one_block-next = refl

one_block-head_size : size one_block.memory head ≡ 0x100
unfolding read64 read_bytes write64 write_bytes store
one_block-head_size = refl

kmalloc-kfree_example :
    (h' : Heap) × (kmalloc 1 0x18 (kfree (node + 16) one_block) ≡ ok (node + 16, h'))
    × Restored one_block node h'
kmalloc-kfree_example =
    kmalloc-kfree one_block node 0 0x18 one_block-IsBlock (omega (arith, one_block-size))
      (omega (arith, one_block-size))

kmalloc-double_free_example :
    kmalloc 1000 0x21 (kfree (node + 16) (kfree (node + 16) one_block)) ≡ out_of_fuel
kmalloc-double_free_example =
    kmalloc-double_free one_block node 1000 0x21 one_block-IsBlock (omega (arith, one_block-size))

kmalloc-exhausted_example :
    (h' : Heap) × (kmalloc 1 0x1000 one_block ≡ ok (head + 16, h'))
    × (size h'.memory head ≡ 0x1000)
    × (size h'.memory h'.free_list_head + (0x1000 + 16) ≡ size one_block.memory head + 2 ^ 64)
kmalloc-exhausted_example =
    kmalloc-exhausted one_block 0 0x1000 one_block-next (omega (arith, one_block-head_size))
      (omega arith)

run_krealloc : krealloc 1 (node + 16) 0x10 one_block ≡ ok (node + 16, one_block)
unfolding krealloc read64 read_bytes write64 write_bytes store
run_krealloc = refl
