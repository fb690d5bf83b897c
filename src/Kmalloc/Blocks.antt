-- ===== src/Kmalloc/Blocks.antt =====
-- src/kmalloc.c, what the heap promises: blocks that are free or handed out, and the bytes that are
-- left behind them.
use os_c.Prelude.{
  ℕ, ◌+◌, ◌-◌, ◌≤◌, ◌<◌, ltb, leb, ◌==◌, if◌then◌else◌, List, [], ◌∷◌, Option, none, some, All, ◌⊎◌,
}

-- a header's address, and the number of bytes behind the header
pub record Block : Type 0 where
  pub addr : ℕ
  pub bytes : ℕ

abbrev pub block : ℕ → ℕ → Block
block addr bytes = record { addr = addr; bytes = bytes }

pub record Layout : Type 0 where
  pub free : List Block
  pub used : List Block
  pub top : ℕ
  pub left : ℕ

abbrev pub layout : List Block → List Block → ℕ → ℕ → Layout
layout free used top left = record { free = free; used = used; top = top; left = left }

-- what is handed out of a free block for `n` bytes
unfoldable pub taken : ℕ → Block → Block
taken n b = if ltb (b.bytes - n) 32 then b else block b.addr n

-- what stays free of it, before the other free blocks
unfoldable pub remains : ℕ → Block → List Block → List Block
remains n b bs =
    if ltb (b.bytes - n) 32 then bs else block (b.addr + 16 + n) (b.bytes - n - 16) ∷ bs

abbrev pub push : Block → Option (Block × List Block) → Option (Block × List Block)
push b none = none
push b (some (c, bs)) = some (c, b ∷ bs)

-- the first free block that is large enough, and the free blocks without it
unfoldable pub fit : ℕ → List Block → Option (Block × List Block)
fit n [] = none
fit n (b ∷ bs) =
    let rest = fit n bs in if leb n b.bytes then some (taken n b, remains n b bs) else push b rest

abbrev pub cut : ℕ → Layout → Option (Block × Layout)
cut n s =
    if ltb s.left (n + 32)
    then none
    else some
        (block s.top n, layout s.free (block s.top n ∷ s.used) (s.top + 16 + n) (s.left - n - 16))

abbrev pub hand_out : ℕ → Layout → Option (Block × List Block) → Option (Block × Layout)
hand_out n s none = cut n s
hand_out n s (some (b, free)) = some (b, layout free (b ∷ s.used) s.top s.left)

-- A block for `n` bytes, if there is one: the first fit, or else the bytes behind all blocks.
unfoldable pub alloc : ℕ → Layout → Option (Block × Layout)
alloc n s = hand_out n s (fit n s.free)

-- the block at an address, and the blocks without it
unfoldable pub extract : ℕ → List Block → Option (Block × List Block)
extract a [] = none
extract a (b ∷ bs) = let rest = extract a bs in if b.addr == a then some (b, bs) else push b rest

abbrev pub give_back : Layout → Option (Block × List Block) → Option Layout
give_back s none = none
give_back s (some (b, used)) = some (layout (b ∷ s.free) used s.top s.left)

-- The handed-out block at an address is free again, if there is one.
unfoldable pub release : ℕ → Layout → Option Layout
release a s = give_back s (extract a s.used)

abbrev pub Separate : Block → Block → Type 0
Separate b c = (b.addr + 16 + b.bytes ≤ c.addr) ⊎ (c.addr + 16 + c.bytes ≤ b.addr)

abbrev pub AllSeparate : List Block → Type 0
AllSeparate [] = Unit
AllSeparate (b ∷ bs) = All (Separate b) bs × AllSeparate bs

abbrev pub IsBelow : ℕ → Block → Type 0
IsBelow top b = (0 < b.addr) × (b.addr + 16 + b.bytes ≤ top)

-- Blocks do not overlap, stand below the bytes that are left, and are not at the null pointer.
pub record IsLaid (s : Layout) : Type 0 where
  pub nonzero : 0 < s.top
  pub free_below : All (IsBelow s.top) s.free
  pub used_below : All (IsBelow s.top) s.used
  pub free_separate : AllSeparate s.free
  pub used_separate : AllSeparate s.used
  pub separate : All (λ u. All (Separate u) s.free) s.used
