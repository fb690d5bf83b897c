-- ===== src/Kmalloc/Release.antt =====
-- src/kmalloc.c, `kfree`: on the heap that stands for a layout of blocks it does what `release` does.
use os_c.Prelude.{
  ℕ, ◌+◌, ◌==◌, ◌≡◌, ap, ◌∙◌, List, [], ◌∷◌, Option, none, some, All, All-mono, All-and, inl, inr,
  Bool-cases, arith,
}
use mathlib.Core.Path.{subst}
use os_c.Kmalloc.{Heap, next, size, kfree}
use os_c.Kmalloc.Blocks.{
  Block, Layout, layout, push, extract, give_back, release, Separate, IsBelow, IsLaid,
}
use os_c.Kmalloc.Parts.{Holds, Parted, extract-Holds, extract-Parted}
use os_c.Kmalloc.Laid.{LaidIf, release-Laid}
use os_c.Kmalloc.Linked.{IsHeader, Linked-moved}
use os_c.Kmalloc.Represent.{Represents, Kept, Kept-IsHeader}
use os_c.Kmalloc.Reuse.{IsBlock, Freed, kfree-Freed}

abbrev pub StandsAt : ℕ → Option (Block × List Block) → Type 0
StandsAt a none = Unit
StandsAt a (some (b, bs)) = b.addr ≡ a

push-StandsAt :
    (a : ℕ) (b : Block) (o : Option (Block × List Block)) → StandsAt a o → StandsAt a (push b o)
push-StandsAt a b none h = tt
push-StandsAt a b (some (c, bs)) h = h

pub extract-StandsAt : (a : ℕ) (bs : List Block) → StandsAt a (extract a bs)
unfolding extract
extract-StandsAt a [] = tt
extract-StandsAt a (b ∷ bs) = elim (Bool-cases (b.addr == a)) [
  | inl here ↦ rw here (ground (arith, here))
  | inr other ↦ rw other (push-StandsAt a b (extract a bs) (extract-StandsAt a bs))
]

-- What `kfree` leaves: the heap of the layout `s'`, and all blocks that are still handed out as they were.
pub record Released (h : Heap) (s' : Layout) (h' : Heap) : Type 0 where
  pub represents : Represents h'.memory h'.free_list_head s'
  pub kept : All (Kept h.memory h'.memory) s'.used

abbrev ReleasedIf : Heap → Option Layout → Heap → Type 0
ReleasedIf h none h' = Unit
ReleasedIf h (some s') h' = Released h s' h'

Freed-Released :
    (h : Heap) (s : Layout) (b : Block) (used : List Block) (h' : Heap)
    → Represents h.memory h.free_list_head s
    → IsLaid (layout (b ∷ s.free) used s.top s.left)
    → IsHeader h.memory b
    → All (IsHeader h.memory) used
    → All (Separate b) used
    → Freed h b.addr h'
    → Released h (layout (b ∷ s.free) used s.top s.left) h'
Freed-Released h s b used h' rep l header headers apart f =
    let m = h.memory in
    let m' = h'.memory in
    let top = rep.top in
    let kept : All (Kept m m') used =
      All-mono used
        (λ u p y q r. f.elsewhere y (inl (omega (arith, top, p.1.1))) (ground (arith, p.0)))
        (All-and (Separate b) (IsBelow s.top) used apart l.used_below) in
    record {
      represents = record {
        laid = l;
        top = f.head ∙ top;
        left = subst (λ a. size m' a ≡ size m a) top f.head_size ∙ rep.left;
        end = rep.end;
        linked = (
          subst (λ a. next m' a ≡ b.addr) top f.head_next,
          f.node_size ∙ header,
          Linked-moved m m' s.top b.addr s.free (f.node_next ∙ ap (λ a. next m a) top)
              (All-mono s.free
                (λ c p y q r. f.elsewhere y (inl (omega (arith, top, p.1.1))) (ground (arith, p.0)))
                (All-and (Separate b) (IsBelow s.top) s.free l.free_separate.0 l.free_below.1))
              rep.linked,
        );
        headers =
            All-mono used (λ u p. Kept-IsHeader m m' u p.0 p.1)
              (All-and (Kept m m') (IsHeader m) used kept headers);
      };
      kept = kept;
    }

give_back-Released :
    (h : Heap) (a : ℕ) (s : Layout) (o : Option (Block × List Block))
    → Represents h.memory h.free_list_head s
    → LaidIf (give_back s o)
    → Holds (IsHeader h.memory) o
    → Parted o
    → StandsAt a o
    → ReleasedIf h (give_back s o) (kfree (a + 16) h)
give_back-Released h a s none rep l headers parted stands = tt
give_back-Released h a s (some (b, used)) rep l headers parted stands =
    let end = rep.end in
    let top = rep.top in
    let below = l.free_below.0 in
    let is_block : IsBlock h b.addr = record {
      nonzero = ground (arith, below.0);
      small = omega (arith, end, below.1);
      apart = inr (omega (arith, top, below.1));
    } in
    subst (λ n. ReleasedIf h (give_back s (some (b, used))) (kfree (n + 16) h)) stands
      (Freed-Released h s b used (kfree (b.addr + 16) h) rep l headers.0 headers.1 parted.0
        (kfree-Freed h b.addr is_block))

-- On memory that holds the heap of a layout of blocks, if the block whose header is at an address
-- is handed out, then `kfree` of the address behind the header leaves the heap of the layout in
-- which that block is the first of the free ones, and changes no byte of the other blocks that are
-- handed out.
pub kfree-refines :
    (h : Heap) (a : ℕ) (s s' : Layout)
    → Represents h.memory h.free_list_head s
    → release a s ≡ some s'
    → Released h s' (kfree (a + 16) h)
unfolding release
kfree-refines h a s s' rep found =
    subst (λ o. ReleasedIf h o (kfree (a + 16) h)) found
      (give_back-Released h a s (extract a s.used) rep (release-Laid a s rep.laid)
        (extract-Holds (IsHeader h.memory) a s.used rep.headers)
        (extract-Parted a s.used rep.laid.used_separate) (extract-StandsAt a s.used))
