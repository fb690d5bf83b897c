-- ===== src/Kmalloc/Parts.antt =====
-- src/kmalloc.c: what the first fit in the free blocks hands out and leaves, and what a block that
-- is given back was.
use os_c.Prelude.{
  ℕ, ◌+◌, ◌-◌, ◌≤◌, ltb, leb, ◌==◌, List, [], ◌∷◌, Option, none, some, All, All-mono, inl, inr,
  Bool-cases, arith,
}
use os_c.Kmalloc.Blocks.{
  Block, block, taken, remains, push, fit, extract, Separate, AllSeparate, IsBelow,
}

-- the bytes of one block are among those of another
abbrev pub Within : Block → Block → Type 0
Within c b = (b.addr ≤ c.addr) × (c.addr + c.bytes ≤ b.addr + b.bytes)

abbrev pub Holds : (Block → Type 0) → Option (Block × List Block) → Type 0
Holds P none = Unit
Holds P (some (b, bs)) = P b × All P bs

push-Holds :
    (P : Block → Type 0) (b : Block) (o : Option (Block × List Block))
    → P b
    → Holds P o
    → Holds P (push b o)
push-Holds P b none p h = tt
push-Holds P b (some (c, bs)) p h = (h.0, (p, h.1))

pub fit-Holds :
    (P : Block → Type 0)
    → ((b c : Block) → Within c b → P b → P c)
    → (n : ℕ) (bs : List Block) → All P bs
    → Holds P (fit n bs)
unfolding fit taken remains
fit-Holds P closed n [] h = tt
fit-Holds P closed n (b ∷ bs) h = elim (Bool-cases (leb n b.bytes)) [
  | inr small ↦ rw small (push-Holds P b (fit n bs) h.0 (fit-Holds P closed n bs h.1))
  | inl large ↦ elim (Bool-cases (ltb (b.bytes - n) 32)) [
    | inl whole ↦ rw (large, whole) h
    | inr split ↦
        rw (large, split)
          (
            closed b (block b.addr n) (omega arith, ground arith) h.0,
            (
              closed b (block (b.addr + 16 + n) (b.bytes - n - 16)) (omega arith, ground arith) h.0,
              h.1,
            ),
          )
  ]
]

pub IsBelow-closed : (top : ℕ) (b c : Block) → Within c b → IsBelow top b → IsBelow top c
IsBelow-closed top b c w p = (omega arith, omega arith)

pub Separate-closed : (x b c : Block) → Within c b → Separate x b → Separate x c
Separate-closed x b c w p = ground arith

pub Separate-sym : (b c : Block) → Separate b c → Separate c b
Separate-sym b c p = ground arith

-- What is handed out is apart from what stays free, and that is apart among itself.
abbrev pub Parted : Option (Block × List Block) → Type 0
Parted none = Unit
Parted (some (b, bs)) = All (Separate b) bs × AllSeparate bs

push-Parted :
    (b : Block) (o : Option (Block × List Block))
    → Holds (Separate b) o
    → Parted o
    → Parted (push b o)
push-Parted b none h p = tt
push-Parted b (some (c, bs)) h p = ((Separate-sym b c h.0, p.0), (h.1, p.1))

pub fit-Parted : (n : ℕ) (bs : List Block) → AllSeparate bs → Parted (fit n bs)
unfolding fit taken remains
fit-Parted n [] h = tt
fit-Parted n (b ∷ bs) h = elim (Bool-cases (leb n b.bytes)) [
  | inr small ↦ rw small (
      push-Parted b (fit n bs) (fit-Holds (Separate b) (Separate-closed b) n bs h.0)
        (fit-Parted n bs h.1))
  | inl large ↦ elim (Bool-cases (ltb (b.bytes - n) 32)) [
    | inl whole ↦ rw (large, whole) h
    | inr split ↦
        rw (large, split)
          (
            (ground arith, All-mono bs (λ c p. ground arith) h.0),
            (All-mono bs (λ c p. ground arith) h.0, h.1),
          )
  ]
]

abbrev pub Large : ℕ → Option (Block × List Block) → Type 0
Large n none = Unit
Large n (some (b, bs)) = n ≤ b.bytes

push-Large : (n : ℕ) (b : Block) (o : Option (Block × List Block)) → Large n o → Large n (push b o)
push-Large n b none h = tt
push-Large n b (some (c, bs)) h = h

pub fit-Large : (n : ℕ) (bs : List Block) → Large n (fit n bs)
unfolding fit taken remains
fit-Large n [] = tt
fit-Large n (b ∷ bs) = elim (Bool-cases (leb n b.bytes)) [
  | inr small ↦ rw small (push-Large n b (fit n bs) (fit-Large n bs))
  | inl large ↦ elim (Bool-cases (ltb (b.bytes - n) 32)) [
    | inl whole ↦ rw (large, whole) (ground arith)
    | inr split ↦ rw (large, split) (omega arith)
  ]
]

pub extract-Holds :
    (P : Block → Type 0) (a : ℕ) (bs : List Block) → All P bs → Holds P (extract a bs)
unfolding extract
extract-Holds P a [] h = tt
extract-Holds P a (b ∷ bs) h = elim (Bool-cases (b.addr == a)) [
  | inl here ↦ rw here h
  | inr other ↦ rw other (push-Holds P b (extract a bs) h.0 (extract-Holds P a bs h.1))
]

pub extract-Parted : (a : ℕ) (bs : List Block) → AllSeparate bs → Parted (extract a bs)
unfolding extract
extract-Parted a [] h = tt
extract-Parted a (b ∷ bs) h = elim (Bool-cases (b.addr == a)) [
  | inl here ↦ rw here h
  | inr other ↦
      rw other (
        push-Parted b (extract a bs) (extract-Holds (Separate b) a bs h.0)
          (extract-Parted a bs h.1))
]
