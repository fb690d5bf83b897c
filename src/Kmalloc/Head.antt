-- ===== src/Kmalloc/Head.antt =====
-- src/kmalloc.c, `allocate_memory`: the blocks cut off the head of the list while nothing is free.
use os_c.Prelude.{ℕ, suc, ◌+◌, ◌^◌, ◌<◌, ◌≡◌, refl, ap, ◌∙◌, inl, inr, codes, add64, sub64, arith}
use os_c.Memory.{read64-write64, read64-apart, read64-bound}
use os_c.Printf.Outcome.{ok}
use os_c.Kmalloc.{
  Heap, next, size, set_next, set_size, say, find_fit, take, take_head, allocate_memory, kmalloc,
  node_size,
}

-- The heap after a block of `bytes` is cut off: the block, and the new head behind it.
pub record Cut (h : Heap) (bytes : ℕ) (h' : Heap) : Type 0 where
  pub head : h'.free_list_head ≡ h.free_list_head + 16 + bytes
  pub head_next : next h'.memory h'.free_list_head ≡ 0
  pub head_size :
      size h'.memory h'.free_list_head ≡ sub64 (size h.memory h.free_list_head) (bytes + 16)
  pub block_size : size h'.memory h.free_list_head ≡ bytes

take_head-Cut :
    (h : Heap) (bytes : ℕ)
    → next h.memory h.free_list_head ≡ 0
    → h.free_list_head + 16 + bytes + 16 < 2 ^ 64
    → Cut h bytes (take_head bytes h).1
unfolding take_head
take_head-Cut h bytes stop room =
    let old = h.free_list_head in
    let new = old + 16 + bytes in
    let left = sub64 (sub64 (size h.memory old) bytes) node_size in
    let m = set_size new left h.memory in
    let m' = set_next new 0 m in
    let m'' = set_next old 0 m' in
    let place : add64 (add64 old node_size) bytes ≡ new = omega (arith, room) in
    let link : next m old ≡ 0 =
      read64-apart h.memory old (new + 8) left (inl (omega arith)) ∙ stop in
    let bound = read64-bound h.memory (old + 8) in
    rw (place, link)
      record {
        head = refl;
        head_next =
            read64-apart m'' new (old + 8) bytes (inr (omega arith))
            ∙ read64-apart m' new old 0 (inr (omega arith))
            ∙ read64-write64 m new 0 (omega arith);
        head_size =
            read64-apart m'' (new + 8) (old + 8) bytes (inr (omega arith))
            ∙ read64-apart m' (new + 8) old 0 (inr (omega arith))
            ∙ read64-apart m (new + 8) new 0 (inr (omega arith))
            ∙ read64-write64 h.memory (new + 8) left (omega arith)
            ∙ omega (arith, bound, room);
        block_size = read64-write64 m'' (old + 8) bytes (omega (arith, room));
      }

-- While nothing is free and the new head does not wrap, `kmalloc` hands out the bytes behind the
-- head's header: the block's size is what was asked for, the new head stands behind the block with
-- nothing free behind it, and its size is the old one less the bytes and a header, modulo 2 ^ 64.
pub kmalloc-Cut :
    (h : Heap) (fuel bytes : ℕ)
    → next h.memory h.free_list_head ≡ 0
    → h.free_list_head + 16 + bytes + 16 < 2 ^ 64
    → (h' : Heap) × (kmalloc (suc fuel) bytes h ≡ ok (h.free_list_head + 16, h')) × Cut h bytes h'
unfolding kmalloc allocate_memory find_fit take take_head
kmalloc-Cut h fuel bytes stop room =
    let asked = say (codes "Required bytes %zx\n") bytes h in
    let addr : add64 h.free_list_head node_size ≡ h.free_list_head + 16 = omega (arith, room) in
    let c = take_head-Cut asked bytes stop room in
    (
      (take_head bytes asked).1,
      rw stop (ap (λ a. ok (a, (take_head bytes asked).1)) addr),
      record {
        head = c.head;
        head_next = c.head_next;
        head_size = c.head_size;
        block_size = c.block_size;
      },
    )
