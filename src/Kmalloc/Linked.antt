-- ===== src/Kmalloc/Linked.antt =====
-- src/kmalloc.c, `allocate_memory`: the headers in memory are those of the free blocks, and what
-- taking one out makes of them.
use os_c.Prelude.{
  ℕ, ◌+◌, ◌-◌, ◌^◌, ◌≤◌, ◌<◌, ◌≡◌, ◌∙◌, List, [], ◌∷◌, All, All-mono, All-and, ◌⊎◌, inl, inr, arith,
}
use os_c.Memory.{read64-write64, read64-apart, read64-bound, read64-same, write64-outside}
use os_c.Kmalloc.{next, size, set_next, set_size}
use os_c.Kmalloc.Blocks.{Block, block, Separate}

abbrev pub IsHeader : (ℕ → ℕ) → Block → Type 0
IsHeader m b = size m b.addr ≡ b.bytes

-- the list of the blocks' headers, from the link at `a` on
abbrev pub Linked : (ℕ → ℕ) → ℕ → List Block → Type 0
Linked m a [] = next m a ≡ 0
Linked m a (b ∷ bs) = (next m a ≡ b.addr) × IsHeader m b × Linked m b.addr bs

-- the header of a block is not changed
abbrev pub Untouched : (ℕ → ℕ) → (ℕ → ℕ) → Block → Type 0
Untouched m m' b = (y : ℕ) → b.addr ≤ y → y < b.addr + 16 → m' y ≡ m y

pub Untouched-next : (m m' : ℕ → ℕ) (b : Block) → Untouched m m' b → next m' b.addr ≡ next m b.addr
Untouched-next m m' b u = read64-same m' m b.addr (λ y p q. u y p (omega arith))

pub Untouched-size : (m m' : ℕ → ℕ) (b : Block) → Untouched m m' b → size m' b.addr ≡ size m b.addr
Untouched-size m m' b u = read64-same m' m (b.addr + 8) (λ y p q. u y (omega arith) (omega arith))

-- The links behind one address are those behind another, if the first link is and no header is changed.
pub Linked-moved :
    (m m' : ℕ → ℕ) (a a' : ℕ) (bs : List Block)
    → next m' a' ≡ next m a
    → All (Untouched m m') bs
    → Linked m a bs
    → Linked m' a' bs
Linked-moved m m' a a' [] same u l = same ∙ l
Linked-moved m m' a a' (b ∷ bs) same u l = (
  same ∙ l.0,
  Untouched-size m m' b u.0 ∙ l.1,
  Linked-moved m m' b.addr b.addr bs (Untouched-next m m' b u.0) u.1 l.2,
)

abbrev pub Outside : ℕ → Block → Type 0
Outside y b = (y < b.addr) ⊎ (b.addr + 16 + b.bytes ≤ y)

-- The memory `m'` once the block `b` is taken out of the list behind `a`: the rest is linked, the
-- block's header is written, and nothing but the link at `a` and the free blocks is changed.
pub record Out (m m' : ℕ → ℕ) (a : ℕ) (bs : List Block) (b : Block) (rest : List Block)
    : Type 0 where
  pub linked : Linked m' a rest
  pub header : IsHeader m' b
  pub elsewhere : (y : ℕ) → (y < a) ⊎ (a + 8 ≤ y) → All (Outside y) bs → m' y ≡ m y

pub whole-Out :
    (m : ℕ → ℕ) (a k : ℕ) (b : Block) (bs : List Block)
    → Separate (block a k) b
    → All (Separate (block a k)) bs
    → All (Separate b) bs
    → Linked m a (b ∷ bs)
    → Out m
        (set_next a (next m b.addr) (set_size b.addr (size m b.addr) (set_next b.addr 0 m)))
        a
        (b ∷ bs)
        b
        bs
whole-Out m a k b bs sep seps apart (link, header, l) =
    let after = next m b.addr in
    let n = size m b.addr in
    let m1 = set_next b.addr 0 m in
    let m2 = set_size b.addr n m1 in
    let m3 = set_next a after m2 in
    let out : (y : ℕ) → (y < a) ⊎ (a + 8 ≤ y) → Outside y (block b.addr 0) → m3 y ≡ m y = λ y p q.
      write64-outside m2 a after y p
      ∙ write64-outside m1 (b.addr + 8) n y (ground arith)
      ∙ write64-outside m b.addr 0 y (ground arith) in
    record {
      linked =
          Linked-moved m m3 b.addr a bs (read64-write64 m2 a after (read64-bound m b.addr))
            (All-mono bs (λ c s y p q. out y (ground (arith, s.0)) (ground (arith, s.1)))
              (All-and (Separate (block a k)) (Separate b) bs seps apart))
            l;
      header =
          read64-apart m2 (b.addr + 8) a after (ground arith)
          ∙ read64-write64 m1 (b.addr + 8) n (read64-bound m (b.addr + 8))
          ∙ header;
      elsewhere = λ y p q. out y p (ground (arith, q.0));
    }

-- A free block is split: `c` is what stays free of it.
pub split-Out :
    (m : ℕ → ℕ) (a k n left : ℕ) (b : Block) (bs : List Block)
    → let c = block (b.addr + 16 + n) (left - 16) in
      b.bytes ≡ n + left
      → 32 ≤ left
      → b.addr + 16 + b.bytes < 2 ^ 64
      → Separate (block a k) b
      → All (Separate (block a k)) bs
      → All (Separate b) bs
      → Linked m a (b ∷ bs)
      → let m1 = set_size c.addr (left - 16) m in
        Out m
          (set_next a c.addr
            (set_size b.addr n (set_next b.addr 0 (set_next c.addr (next m1 b.addr) m1))))
          a
          (b ∷ bs)
          (block b.addr n)
          (c ∷ bs)
split-Out m a k n left b bs whole rest small sep seps apart (link, header, l) =
    let c = b.addr + 16 + n in
    let m1 = set_size c (left - 16) m in
    let after = next m1 b.addr in
    let m2 = set_next c after m1 in
    let m3 = set_next b.addr 0 m2 in
    let m4 = set_size b.addr n m3 in
    let m5 = set_next a c m4 in
    let out : (y : ℕ) → (y < a) ⊎ (a + 8 ≤ y) → Outside y b → m5 y ≡ m y = λ y p q.
      write64-outside m4 a c y p
      ∙ write64-outside m3 (b.addr + 8) n y (ground arith)
      ∙ write64-outside m2 b.addr 0 y (ground arith)
      ∙ write64-outside m1 c after y (ground arith)
      ∙ write64-outside m (c + 8) (left - 16) y (ground arith) in
    let behind : next m5 c ≡ next m b.addr =
      read64-apart m4 c a c (ground arith)
      ∙ read64-apart m3 c (b.addr + 8) n (inr (omega arith))
      ∙ read64-apart m2 c b.addr 0 (inr (omega arith))
      ∙ read64-write64 m1 c after (read64-bound m1 b.addr)
      ∙ read64-apart m b.addr (c + 8) (left - 16) (inl (omega arith)) in
    record {
      linked = (
        read64-write64 m4 a c (omega arith),
        read64-apart m4 (c + 8) a c (ground arith)
            ∙ read64-apart m3 (c + 8) (b.addr + 8) n (inr (omega arith))
            ∙ read64-apart m2 (c + 8) b.addr 0 (inr (omega arith))
            ∙ read64-apart m1 (c + 8) c after (inr (omega arith))
            ∙ read64-write64 m (c + 8) (left - 16) (omega arith),
        Linked-moved m m5 b.addr c bs behind
            (All-mono bs (λ d s y p q. out y (ground (arith, s.0)) (ground (arith, s.1)))
              (All-and (Separate (block a k)) (Separate b) bs seps apart))
            l,
      );
      header =
          read64-apart m4 (b.addr + 8) a c (ground arith)
          ∙ read64-write64 m3 (b.addr + 8) n (omega arith);
      elsewhere = λ y p q. out y p q.0;
    }
