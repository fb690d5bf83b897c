-- ===== src/Kmalloc/Represent.antt =====
-- src/kmalloc.c: the heap in memory that stands for a layout of blocks, before and after one is
-- handed out.
use os_c.Prelude.{
  ℕ, ◌+◌, ◌^◌, ◌≤◌, ◌<◌, ◌≡◌, ◌∙◌, List, [], ◌∷◌, Option, none, some, All, All-mono, All-and, inr,
  arith, map,
}
use os_c.Memory.{read64-same}
use os_c.Kmalloc.{Heap, size}
use os_c.Kmalloc.Blocks.{Block, block, Layout, layout, Separate, AllSeparate, IsBelow, IsLaid}
use os_c.Kmalloc.Fit.{Chain, chain_end, chain_link}
use os_c.Kmalloc.Linked.{Linked, IsHeader}
use os_c.Kmalloc.Taking.{Took}

-- the memory and the head of the list are those of a layout
pub record Represents (m : ℕ → ℕ) (head : ℕ) (s : Layout) : Type 0 where
  pub laid : IsLaid s
  pub top : head ≡ s.top
  pub left : size m s.top ≡ s.left
  pub end : s.top + s.left < 2 ^ 64
  pub linked : Linked m s.top s.free
  pub headers : All (IsHeader m) s.used

-- no byte of the block is changed, its header's neither
abbrev pub Kept : (ℕ → ℕ) → (ℕ → ℕ) → Block → Type 0
Kept m m' b = (y : ℕ) → b.addr ≤ y → y < b.addr + 16 + b.bytes → m' y ≡ m y

pub Kept-IsHeader : (m m' : ℕ → ℕ) (b : Block) → Kept m m' b → IsHeader m b → IsHeader m' b
Kept-IsHeader m m' b kept header =
    read64-same m' m (b.addr + 8) (λ y p q. kept y (omega arith) (omega arith)) ∙ header

pub Linked-Chain :
    (m : ℕ → ℕ) (a k top : ℕ) (bs : List Block)
    → All (IsBelow top) bs
    → All (Separate (block a k)) bs
    → AllSeparate bs
    → Linked m a bs
    → Chain m a (map (λ b. b.addr) bs)
Linked-Chain m a k top [] below seps apart l = chain_end a l
Linked-Chain m a k top (b ∷ bs) below seps apart l =
    chain_link a b.addr _ l.0 (ground (arith, below.0.0)) (ground (arith, seps.0))
      (Linked-Chain m b.addr b.bytes top bs below.1 apart.0 apart.1 l.2)

-- What `kmalloc` makes of the heap, where there is a block to hand out.
pub record Handed (m : ℕ → ℕ) (used : List Block) (b : Block) (s' : Layout) (r : ℕ × Heap)
    : Type 0 where
  pub address : r.0 ≡ b.addr
  pub represents : Represents r.1.memory r.1.free_list_head s'
  pub kept : All (Kept m r.1.memory) used

abbrev pub HandedIf : (ℕ → ℕ) → List Block → Option (Block × Layout) → ℕ × Heap → Type 0
HandedIf m used none r = Unit
HandedIf m used (some (b, s')) r = Handed m used b s' r

-- Blocks below the head, and apart from every free one, are kept.
Took-Kept :
    (h : Heap) (s : Layout) (b : Block) (rest : List Block) (r : ℕ × Heap)
    → IsLaid s
    → Took h s.top s.free b rest r
    → All (Kept h.memory r.1.memory) s.used
Took-Kept h s b rest r l t =
    All-mono s.used
      (λ u p y q w.
        t.out.elsewhere y (ground (arith, p.0)) (All-mono s.free (λ c sep. ground arith) p.1))
      (All-and (IsBelow s.top) (λ u. All (Separate u) s.free) s.used l.used_below l.separate)

pub Took-Handed :
    (h : Heap) (n : ℕ) (s : Layout) (b : Block) (rest : List Block) (r : ℕ × Heap)
    → Represents h.memory h.free_list_head s
    → IsLaid (layout rest (b ∷ s.used) s.top s.left)
    → Took h s.top s.free b rest r
    → Handed h.memory s.used b (layout rest (b ∷ s.used) s.top s.left) r
Took-Handed h n s b rest r rep l t =
    let m = h.memory in
    let m' = r.1.memory in
    let kept = Took-Kept h s b rest r rep.laid t in
    record {
      address = t.address;
      represents = record {
        laid = l;
        top = t.head ∙ rep.top;
        left =
            read64-same m' m (s.top + 8) (λ y p q.
              t.out.elsewhere y (inr p)
                (All-mono s.free (λ c below. ground (arith, below)) rep.laid.free_below))
            ∙ rep.left;
        end = rep.end;
        linked = t.out.linked;
        headers = (
          t.out.header,
          All-mono s.used (λ u p. Kept-IsHeader m m' u p.0 p.1)
              (All-and (Kept m m') (IsHeader m) s.used kept rep.headers),
        );
      };
      kept = kept;
    }
