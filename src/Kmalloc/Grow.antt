-- ===== src/Kmalloc/Grow.antt =====
-- src/kmalloc.c, `krealloc`: a block that is too small is moved, with its bytes.
use os_c.Prelude.{
  ℕ, ◌+◌, ◌≤◌, ◌<◌, leb, ◌==◌, ◌≡◌, refl, sym, ◌∙◌, List, ◌∷◌, some, All, All-mono, All-and, ◌⊎◌,
  inl, inr, false, sub64, arith, length,
}
use mathlib.Core.Path.{subst}
use os_c.Memory.{read64-same}
use os_c.Printf.Outcome.{ok}
use os_c.Kmalloc.{Heap, kfree, kmemcpy, krealloc, node_size}
use os_c.Kmalloc.Blocks.{
  Block, Layout, layout, extract, release, alloc, Separate, AllSeparate, IsBelow,
}
use os_c.Kmalloc.Copy.{kmemcpy-copies}
use os_c.Kmalloc.Parts.{Holds, extract-Holds}
use os_c.Kmalloc.Linked.{IsHeader, Linked-moved}
use os_c.Kmalloc.Represent.{Represents, Kept, Kept-IsHeader}
use os_c.Kmalloc.Refine.{Returned, kmalloc-refines}
use os_c.Kmalloc.Release.{kfree-refines}

-- Writing behind the header of a block that is handed out changes neither the heap nor another block.
written-Represents :
    (m m' : ℕ → ℕ) (head : ℕ) (s : Layout) (c : Block) (used : List Block)
    → Represents m head s
    → s.used ≡ c ∷ used
    → ((y : ℕ) → (y < c.addr + 16) ⊎ (c.addr + 16 + c.bytes ≤ y) → m' y ≡ m y)
    → Represents m' head s × All (Kept m m') used
written-Represents m m' head s c used rep is_used outside =
    let l = rep.laid in
    let apart : All (λ u. All (Separate u) s.free) (c ∷ used) =
      subst (All (λ u. All (Separate u) s.free)) is_used l.separate in
    let (below_c, below) : All (IsBelow s.top) (c ∷ used) =
      subst (All (IsBelow s.top)) is_used l.used_below in
    let (header, headers) : All (IsHeader m) (c ∷ used) =
      subst (All (IsHeader m)) is_used rep.headers in
    let kept : All (Kept m m') used =
      All-mono used (λ u p y q r. outside y (ground (arith, p)))
        (subst AllSeparate is_used l.used_separate).0 in
    let at_top : (y : ℕ) → s.top ≤ y → m' y ≡ m y =
      λ y p. outside y (inr (omega (arith, below_c.1, p))) in
    (
      record {
        laid = l;
        top = rep.top;
        left = read64-same m' m (s.top + 8) (λ y p q. at_top y (omega arith)) ∙ rep.left;
        end = rep.end;
        linked =
            Linked-moved m m' s.top s.top s.free (read64-same m' m s.top (λ y p q. at_top y p))
              (All-mono s.free (λ u p y q r. outside y (ground (arith, p))) apart.0) rep.linked;
        headers = subst (All (IsHeader m')) (sym is_used) (
          read64-same m' m (c.addr + 8) (λ y p q. outside y (inl (omega arith))) ∙ header,
          All-mono used (λ u p. Kept-IsHeader m m' u p.0 p.1)
              (All-and (Kept m m') (IsHeader m) used kept headers),
        );
      },
      kept,
    )

-- What `krealloc` leaves when the block `b` is moved to `c`.
pub record Moved (h : Heap) (b c : Block) (rest : List Block) (s1 : Layout) (h' : Heap)
    : Type 0 where
  pub represents :
      Represents h'.memory h'.free_list_head (layout (b ∷ s1.free) (c ∷ rest) s1.top s1.left)
  pub contents : (i : ℕ) → i < b.bytes → h'.memory (c.addr + 16 + i) ≡ h.memory (b.addr + 16 + i)
  pub kept : All (Kept h.memory h'.memory) rest

-- everything that holds of the blocks handed out holds of the one found, and of the others
found-Holds :
    (P : Block → Type 0) (a : ℕ) (bs : List Block) {b : Block} {rest : List Block}
    → extract a bs ≡ some (b, rest)
    → All P bs
    → P b × All P rest
found-Holds P a bs found h = subst (Holds P) found (extract-Holds P a bs h)

released-found :
    (a : ℕ) (s1 : Layout) (b c : Block) (used rest : List Block)
    → s1.used ≡ c ∷ used
    → (c.addr == a) ≡ false
    → extract a used ≡ some (b, rest)
    → release a s1 ≡ some (layout (b ∷ s1.free) (c ∷ rest) s1.top s1.left)
unfolding release extract
released-found a s1 b c used rest is_used other found = rw (is_used, other, found) refl

Returned-Moved :
    (h h1 : Heap) (n : ℕ) (s s1 : Layout) (b c : Block) (rest : List Block)
    → extract b.addr s.used ≡ some (b, rest)
    → b.bytes < n
    → Returned h n s c s1 h1
    → Moved h b c rest s1 (kfree (b.addr + 16) (kmemcpy (c.addr + 16) (b.addr + 16) b.bytes h1))
unfolding kmemcpy
Returned-Moved h h1 n s s1 b c rest found grows got =
    let bytes = got.bytes in
    let h2 = kmemcpy (c.addr + 16) (b.addr + 16) b.bytes h1 in
    let (apart, aparts) : Separate c b × All (Separate c) rest =
      found-Holds (Separate c) b.addr s.used found
        (subst AllSeparate got.used got.represents.laid.used_separate).0 in
    let kept1 = found-Holds (Kept h.memory h1.memory) b.addr s.used found got.kept in
    let copy = kmemcpy-copies h1 (c.addr + 16) (b.addr + 16) b.bytes (ground arith) in
    let (rep2, kept2) =
      written-Represents h1.memory h2.memory h2.free_list_head s1 c s.used got.represents got.used
        (λ y p. copy.1 y (ground (arith, p))) in
    let kept2' = found-Holds (Kept h1.memory h2.memory) b.addr s.used found kept2 in
    let freed =
      kfree-refines h2 b.addr s1 (layout (b ∷ s1.free) (c ∷ rest) s1.top s1.left) rep2
        (released-found b.addr s1 b c s.used rest got.used (ground (arith, apart)) found) in
    record {
      represents = freed.represents;
      contents = λ i p.
          freed.kept.0 (c.addr + 16 + i) (omega arith) (omega arith)
          ∙ copy.0 i p
          ∙ kept1.0 (b.addr + 16 + i) (omega arith) (omega arith);
      kept =
          All-mono rest (λ u k y p q. k.1.1 y p q ∙ k.1.0 y p q ∙ k.0 y p q)
            (All-and (Kept h.memory h1.memory)
              (λ u. Kept h1.memory h2.memory u × Kept h2.memory _ u) rest kept1.1
              (All-and (Kept h1.memory h2.memory) (Kept h2.memory _) rest kept2'.1 freed.kept.1));
    }

-- On memory that holds the heap of a layout of blocks, and with more rounds than there are free
-- blocks, if a block that is handed out is smaller than what `krealloc` is asked for, and `alloc`
-- has another block for that, then `krealloc` returns that block's address: it starts with the
-- bytes of the old block, the old block is free, and the other blocks that are handed out are as
-- they were.
pub krealloc-moves :
    (h : Heap) (fuel n : ℕ) (s s1 : Layout) (b c : Block) (rest : List Block)
    → Represents h.memory h.free_list_head s
    → length s.free < fuel
    → extract b.addr s.used ≡ some (b, rest)
    → b.bytes < n
    → alloc n s ≡ some (c, s1)
    → (h' : Heap) × (krealloc fuel (b.addr + 16) n h ≡ ok (c.addr + 16, h'))
      × Moved h b c rest s1 h'
unfolding krealloc
krealloc-moves h fuel n s s1 b c rest rep enough found grows room =
    let (h1, done, got) = kmalloc-refines h fuel n s s1 c rep enough room in
    let below = found-Holds (IsBelow s.top) b.addr s.used found rep.laid.used_below in
    let header = found-Holds (IsHeader h.memory) b.addr s.used found rep.headers in
    let kept = found-Holds (Kept h.memory h1.memory) b.addr s.used found got.kept in
    let end = rep.end in
    let node : sub64 (b.addr + 16) node_size ≡ b.addr = omega (arith, below.0.1, end) in
    let small : leb n b.bytes ≡ false = ground (arith, grows) in
    let size1 = Kept-IsHeader h.memory h1.memory b kept.0 header.0 in
    (
      kfree (b.addr + 16) (kmemcpy (c.addr + 16) (b.addr + 16) b.bytes h1),
      rw (node, header.0, small, done, size1) refl,
      Returned-Moved h h1 n s s1 b c rest found grows got,
    )
