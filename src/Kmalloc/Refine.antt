-- ===== src/Kmalloc/Refine.antt =====
-- src/kmalloc.c, `kmalloc`: on the heap that stands for a layout of blocks it does what `alloc` does.
use os_c.Prelude.{
  ℕ, suc, ◌+◌, ◌-◌, ◌≤◌, ◌<◌, ltb, ◌≡◌, refl, sym, ap, ◌∙◌, List, [], ◌∷◌, Option, none, some, All,
  All-mono, All-and, inl, inr, Bool-cases, sub64, add64, arith, map, length, codes,
}
use mathlib.Core.Path.{subst}
use os_c.Memory.{read64-bound, read64-write64, read64-apart, write64-outside}
use os_c.Printf.Outcome.{ok}
use os_c.Kmalloc.{
  Heap, next, size, set_next, set_size, take_after, take_head, take, allocate_memory, kmalloc,
  node_size,
}
use os_c.Kmalloc.Blocks.{
  Block, block, Layout, layout, fit, cut, hand_out, alloc, Separate, IsBelow, IsLaid,
}
use os_c.Kmalloc.Laid.{AllocatedIf, alloc-Allocated}
use os_c.Kmalloc.Fit.{Chain, fit_before, heap, find_fit-Chain}
use os_c.Kmalloc.Linked.{Linked-moved, IsHeader}
use os_c.Kmalloc.Taking.{TookIf, fit_before-Took}
use os_c.Kmalloc.Represent.{
  Represents, Kept, Kept-IsHeader, Linked-Chain, Handed, HandedIf, Took-Handed,
}

-- the header that is cut off the bytes behind all blocks, and the list that starts behind it
cut-Handed :
    (h : Heap) (n : ℕ) (s : Layout)
    → Represents h.memory h.free_list_head s
    → n + 32 ≤ s.left
    → let b = block s.top n in
      let s' = layout s.free (b ∷ s.used) (s.top + 16 + n) (s.left - n - 16) in
      IsLaid s' → Handed h.memory s.used b s' (take_head n h)
unfolding take_head
cut-Handed h n s rep room l =
    let m = h.memory in
    let top = s.top in
    let new = top + 16 + n in
    let left = s.left - n - 16 in
    let end = rep.end in
    let head = rep.top in
    let rest : sub64 (sub64 (size m top) n) node_size ≡ left = omega (arith, rep.left, end, room) in
    let place : add64 (add64 top node_size) n ≡ new = omega (arith, end, room) in
    let m1 = set_size new left m in
    let m2 = set_next new (next m1 top) m1 in
    let m3 = set_next top 0 m2 in
    let m4 = set_size top n m3 in
    let out : (y : ℕ) → y < top → m4 y ≡ m y = λ y p.
      write64-outside m3 (top + 8) n y (inl (omega arith))
      ∙ write64-outside m2 top 0 y (inl (omega arith))
      ∙ write64-outside m1 new (next m1 top) y (inl (omega arith))
      ∙ write64-outside m (new + 8) left y (inl (omega arith)) in
    let kept : All (Kept m m4) s.used =
      All-mono s.used (λ u p y q r. out y (omega arith)) rep.laid.used_below in
    let link : next m4 new ≡ next m top =
      read64-apart m3 new (top + 8) n (inr (omega arith))
      ∙ read64-apart m2 new top 0 (inr (omega arith))
      ∙ read64-write64 m1 new (next m1 top) (read64-bound m1 top)
      ∙ read64-apart m top (new + 8) left (inl (omega arith)) in
    rw (head, rest, place)
      record {
        address = refl;
        represents = record {
          laid = l;
          top = refl;
          left =
              read64-apart m3 (new + 8) (top + 8) n (inr (omega arith))
              ∙ read64-apart m2 (new + 8) top 0 (inr (omega arith))
              ∙ read64-apart m1 (new + 8) new (next m1 top) (inr (omega arith))
              ∙ read64-write64 m (new + 8) left (omega arith);
          end = omega (arith, end, room);
          linked =
              Linked-moved m m4 top new s.free link
                (All-mono s.free (λ c p y q r. out y (omega arith)) rep.laid.free_below) rep.linked;
          headers = (
            read64-write64 m3 (top + 8) n (omega (arith, end, room)),
            All-mono s.used (λ u p. Kept-IsHeader m m4 u p.0 p.1)
                (All-and (Kept m m4) (IsHeader m) s.used kept rep.headers),
          );
        };
        kept = kept;
      }

take_head-Handed :
    (h : Heap) (n : ℕ) (s : Layout)
    → Represents h.memory h.free_list_head s
    → AllocatedIf n s (cut n s)
    → HandedIf h.memory s.used (cut n s) (take_head n h)
take_head-Handed h n s rep = elim (Bool-cases (ltb s.left (n + 32))) [
  | inl full ↦ rw full (λ _. tt)
  | inr room ↦ rw room (λ a. cut-Handed h n s rep (ground (arith, room)) a.laid)
]

take-Handed :
    (h : Heap) (n : ℕ) (s : Layout) (place : Option ℕ) (o : Option (Block × List Block))
    → Represents h.memory h.free_list_head s
    → AllocatedIf n s (hand_out n s o)
    → TookIf h n s.top s.free place o
    → HandedIf h.memory s.used (hand_out n s o) (take place n h)
unfolding TookIf take
take-Handed h n s none none rep alloc t = take_head-Handed h n s rep alloc
take-Handed h n s (some node) (some (b, rest)) rep alloc t =
    Took-Handed h n s b rest (take_after node n h) rep alloc.laid t
take-Handed h n s none (some _) rep alloc t = elim t [ ]
take-Handed h n s (some _) none rep alloc t = elim t [ ]

length-addresses : (bs : List Block) → length (map (λ b. b.addr) bs) ≡ length bs
length-addresses [] = refl
length-addresses (b ∷ bs) = ap suc (length-addresses bs)

abbrev addresses : Layout → List ℕ
addresses s = map (λ b. b.addr) s.free

above_free : (s : Layout) → IsLaid s → All (Separate (block s.top 0)) s.free
above_free s l = All-mono s.free (λ c p. inr p.1) l.free_below

placed-Handed :
    (h : Heap) (n : ℕ) (s : Layout)
    → Represents h.memory h.free_list_head s
    → HandedIf h.memory s.used
        (alloc n s)
        (take (fit_before h.memory n h.free_list_head (addresses s)) n h)
unfolding alloc
placed-Handed h n s rep =
    let l = rep.laid in
    let place = λ (a : ℕ). fit_before h.memory n a (addresses s) in
    let t =
      fit_before-Took h n s.top 0 s.top s.free (omega (arith, rep.end)) l.free_below
        (above_free s l) l.free_separate rep.linked in
    take-Handed h n s (place h.free_list_head) (fit n s.free) rep (alloc-Allocated n s l)
      (subst (λ a. TookIf h n s.top s.free (place a) (fit n s.free)) (sym rep.top) t)

-- what `kmalloc` returns: the address behind the header of the block `b`
pub record Returned (h : Heap) (n : ℕ) (s : Layout) (b : Block) (s' : Layout) (h' : Heap)
    : Type 0 where
  pub represents : Represents h'.memory h'.free_list_head s'
  pub used : s'.used ≡ b ∷ s.used
  pub bytes : n ≤ b.bytes
  pub kept : All (Kept h.memory h'.memory) s.used

-- On memory that holds the heap of a layout of blocks, and with more rounds than there are free
-- blocks, if `alloc` has a block for a request, then `kmalloc` returns the address behind that
-- block's header and leaves the heap of the layout that `alloc` leads to: the block is at least as
-- large as asked for and overlaps no other, and no byte of a block that was handed out before is
-- changed, its header included.
pub kmalloc-refines :
    (h : Heap) (fuel n : ℕ) (s s' : Layout) (b : Block)
    → Represents h.memory h.free_list_head s
    → length s.free < fuel
    → alloc n s ≡ some (b, s')
    → (h' : Heap) × (kmalloc fuel n h ≡ ok (b.addr + 16, h')) × Returned h n s b s' h'
unfolding kmalloc allocate_memory
kmalloc-refines h fuel n s s' b rep enough found =
    let m = h.memory in
    let l = rep.laid in
    let chain : Chain m h.free_list_head (addresses s) =
      subst (λ a. Chain m a (addresses s)) (sym rep.top)
        (Linked-Chain m s.top 0 s.top s.free l.free_below (above_free s l) l.free_separate
          rep.linked) in
    let (printed, stops) =
      find_fit-Chain chain fuel n h.free_list_head ((codes "Required bytes %zx\n", n) ∷ h.printed)
        (omega (arith, enough, length-addresses s.free)) in
    let from = heap m h.free_list_head printed in
    let r = take (fit_before m n h.free_list_head (addresses s)) n from in
    let got : AllocatedIf n s (some (b, s')) =
      subst (AllocatedIf n s) found (alloc-Allocated n s l) in
    let t : HandedIf m s.used (some (b, s')) r =
      subst (λ o. HandedIf m s.used o r) found (placed-Handed from n s rep) in
    let in_used : All (IsBelow s'.top) (b ∷ s.used) =
      subst (All (IsBelow s'.top)) got.used got.laid.used_below in
    let addr : add64 r.0 node_size ≡ b.addr + 16 =
      omega (arith, t.address, in_used.0.1, t.represents.end) in
    (
      r.1,
      rw stops (ap (λ a. ok (a, r.1)) addr),
      record { represents = t.represents; used = got.used; bytes = got.bytes; kept = t.kept },
    )
