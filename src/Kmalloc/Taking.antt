-- ===== src/Kmalloc/Taking.antt =====
-- src/kmalloc.c, `allocate_memory`: the first fit of the list in memory is the first fit of the blocks.
use os_c.Prelude.{
  ℕ, ◌+◌, ◌-◌, ◌^◌, ◌≤◌, ◌<◌, ltb, leb, ◌≡◌, refl, ◌∙◌, List, [], ◌∷◌, Option, none, some, All,
  All-mono, inl, inr, Bool-cases, sub64, add64, arith, map,
}
use os_c.Memory.{read64-same}
use os_c.Kmalloc.{Heap, size, take_after, node_size}
use os_c.Kmalloc.Blocks.{Block, block, taken, remains, push, fit, Separate, AllSeparate, IsBelow}
use os_c.Kmalloc.Fit.{fit_before}
use os_c.Kmalloc.Linked.{Linked, Out, whole-Out, split-Out}

-- A node is handed out with the heap as it is then: the block `b` of the list behind `a`.
pub record Took (h : Heap) (a : ℕ) (bs : List Block) (b : Block) (rest : List Block) (r : ℕ × Heap)
    : Type 0 where
  pub address : r.0 ≡ b.addr
  pub head : r.1.free_list_head ≡ h.free_list_head
  pub out : Out h.memory r.1.memory a bs b rest

take_after-Took :
    (h : Heap) (n a k : ℕ) (b : Block) (bs : List Block)
    → b.addr + 16 + b.bytes < 2 ^ 64
    → n ≤ b.bytes
    → Separate (block a k) b
    → All (Separate (block a k)) bs
    → All (Separate b) bs
    → Linked h.memory a (b ∷ bs)
    → Took h a (b ∷ bs) (taken n b) (remains n b bs) (take_after a n h)
unfolding take_after taken remains
take_after-Took h n a k b bs small fits sep seps apart l =
    let (link, header, behind) = l in
    let left : sub64 (size h.memory b.addr) n ≡ b.bytes - n = omega (arith, header, small, fits) in
    elim (Bool-cases (ltb (b.bytes - n) 32)) [
      | inl whole ↦
          rw (link, left, whole)
            record {
              address = refl;
              head = refl;
              out = whole-Out h.memory a k b bs sep seps apart l;
            }
      | inr split ↦
          let place : add64 (add64 b.addr node_size) n ≡ b.addr + 16 + n = omega arith in
          let rest : sub64 (b.bytes - n) node_size ≡ b.bytes - n - 16 =
            ground (arith, split, small) in
          rw (link, left, split, place, rest)
            record {
              address = refl;
              head = refl;
              out =
                  split-Out h.memory a k n (b.bytes - n) b bs (omega arith) (ground arith) small sep
                    seps apart l;
            }
    ]

-- Taking a block out of the list behind `c` takes it out of the list behind `a`, which links to `c`.
Took-behind :
    (h : Heap) (a k : ℕ) (c : Block) (bs : List Block) {b : Block} {rest : List Block}
    {r : ℕ × Heap}
    → Separate (block a k) c
    → All (Separate (block a k)) bs
    → All (Separate c) bs
    → Linked h.memory a (c ∷ bs)
    → Took h c.addr bs b rest r
    → Took h a (c ∷ bs) b (c ∷ rest) r
Took-behind h a k c bs {b} {rest} {r} sep seps apart (link, header, l) t =
    let m = h.memory in
    let m' = r.1.memory in
    let o = t.out in
    record {
      address = t.address;
      head = t.head;
      out = record {
        linked = (
          read64-same m' m a (λ y p q.
                o.elsewhere y (ground arith) (All-mono bs (λ d s. ground (arith, s)) seps))
              ∙ link,
          read64-same m' m (c.addr + 8) (λ y p q.
                o.elsewhere y (inr (omega arith)) (All-mono bs (λ d s. ground (arith, s)) apart))
              ∙ header,
          o.linked,
        );
        header = o.header;
        elsewhere = λ y p q. o.elsewhere y (ground (arith, q.0)) q.1;
      };
    }

-- The loop stops where the first fit is taken out, or there is none.
unfoldable pub TookIf : Heap → ℕ → ℕ → List Block → Option ℕ → Option (Block × List Block) → Type 0
TookIf h n a bs none none = Unit
TookIf h n a bs (some node) (some (b, rest)) = Took h a bs b rest (take_after node n h)
TookIf h n a bs none (some _) = ⊥
TookIf h n a bs (some _) none = ⊥

TookIf-behind :
    (h : Heap) (n a k : ℕ) (c : Block) (bs : List Block) (o : Option ℕ)
    (o' : Option (Block × List Block))
    → Separate (block a k) c
    → All (Separate (block a k)) bs
    → All (Separate c) bs
    → Linked h.memory a (c ∷ bs)
    → TookIf h n c.addr bs o o'
    → TookIf h n a (c ∷ bs) o (push c o')
unfolding TookIf
TookIf-behind h n a k c bs none none sep seps apart l t = tt
TookIf-behind h n a k c bs (some node) (some _) sep seps apart l t =
    Took-behind h a k c bs sep seps apart l t
TookIf-behind h n a k c bs none (some _) sep seps apart l t = t
TookIf-behind h n a k c bs (some _) none sep seps apart l t = t

-- In a list of separate blocks below 2 ^ 64 the loop stops where the first fit is taken out.
pub fit_before-Took :
    (h : Heap) (n a k top : ℕ) (bs : List Block)
    → top < 2 ^ 64
    → All (IsBelow top) bs
    → All (Separate (block a k)) bs
    → AllSeparate bs
    → Linked h.memory a bs
    → TookIf h n a bs (fit_before h.memory n a (map (λ b. b.addr) bs)) (fit n bs)
unfolding fit_before fit TookIf
fit_before-Took h n a k top [] small below seps apart l = tt
fit_before-Took h n a k top (b ∷ bs) small below seps apart l = elim (Bool-cases (leb n b.bytes)) [
  | inl large ↦
      rw (l.1, large)
        (take_after-Took h n a k b bs (omega (arith, below.0.1)) (ground arith) seps.0 seps.1
          apart.0 l)
  | inr less ↦
      rw (l.1, less)
        (TookIf-behind h n a k b bs _ (fit n bs) seps.0 seps.1 apart.0 l
          (fit_before-Took h n b.addr b.bytes top bs small below.1 apart.0 apart.1 l.2))
]
