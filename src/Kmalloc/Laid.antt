-- ===== src/Kmalloc/Laid.antt =====
-- src/kmalloc.c: the blocks of the heap keep apart when one is handed out or given back.
use os_c.Prelude.{
  ℕ, ◌+◌, ◌≤◌, ltb, List, ◌∷◌, Option, none, some, All, All-mono, All-and, refl, inl, inr,
  Bool-cases, ◌≡◌, arith,
}
use os_c.Kmalloc.Blocks.{
  Block, block, Layout, fit, hand_out, cut, alloc, extract, give_back, release, Separate, IsBelow,
  IsLaid,
}
use os_c.Kmalloc.Parts.{
  Holds, Parted, Large, IsBelow-closed, Separate-closed, Separate-sym, fit-Holds, fit-Parted,
  fit-Large, extract-Holds, extract-Parted,
}

-- What `alloc` keeps of a layout.
pub record Allocated (n : ℕ) (s : Layout) (b : Block) (s' : Layout) : Type 0 where
  pub laid : IsLaid s'
  pub used : s'.used ≡ b ∷ s.used
  pub bytes : n ≤ b.bytes
  pub end : s'.top + s'.left ≡ s.top + s.left

abbrev pub AllocatedIf : ℕ → Layout → Option (Block × Layout) → Type 0
AllocatedIf n s none = Unit
AllocatedIf n s (some (b, s')) = Allocated n s b s'

cut-Allocated : (n : ℕ) (s : Layout) → IsLaid s → AllocatedIf n s (cut n s)
cut-Allocated n s l =
    let top = s.top + 16 + n in
    let up : (b : Block) → IsBelow s.top b → IsBelow top b = λ b p. (p.0, omega (arith, p.1)) in
    let past : (b : Block) → IsBelow s.top b → Separate (block s.top n) b = λ b p. inr p.1 in
    elim (Bool-cases (ltb s.left (n + 32))) [
      | inl full ↦ rw full tt
      | inr room ↦ rw room record {
        laid = record {
          nonzero = omega arith;
          free_below = All-mono s.free up l.free_below;
          used_below = ((l.nonzero, omega arith), All-mono s.used up l.used_below);
          free_separate = l.free_separate;
          used_separate = (All-mono s.used past l.used_below, l.used_separate);
          separate = (All-mono s.free past l.free_below, l.separate);
        };
        used = refl;
        bytes = omega arith;
        end = ground (arith, room);
      }
    ]

hand_out-Allocated :
    (n : ℕ) (s : Layout) (o : Option (Block × List Block))
    → IsLaid s
    → Holds (IsBelow s.top) o
    → Parted o
    → All (λ u. Holds (Separate u) o) s.used
    → Large n o
    → AllocatedIf n s (hand_out n s o)
hand_out-Allocated n s none l below parted cross large = cut-Allocated n s l
hand_out-Allocated n s (some (b, free)) l below parted cross large = record {
  laid = record {
    nonzero = l.nonzero;
    free_below = below.1;
    used_below = (below.0, l.used_below);
    free_separate = parted.1;
    used_separate = (All-mono s.used (λ u p. Separate-sym u b p.0) cross, l.used_separate);
    separate = (parted.0, All-mono s.used (λ u p. p.1) cross);
  };
  used = refl;
  bytes = large;
  end = refl;
}

-- `alloc` keeps the blocks apart, and what it hands out is large enough.
pub alloc-Allocated : (n : ℕ) (s : Layout) → IsLaid s → AllocatedIf n s (alloc n s)
unfolding alloc
alloc-Allocated n s l =
    hand_out-Allocated n s (fit n s.free) l
      (fit-Holds (IsBelow s.top) (IsBelow-closed s.top) n s.free l.free_below)
      (fit-Parted n s.free l.free_separate)
      (All-mono s.used (λ u. fit-Holds (Separate u) (Separate-closed u) n s.free) l.separate)
      (fit-Large n s.free)

abbrev pub LaidIf : Option Layout → Type 0
LaidIf none = Unit
LaidIf (some s) = IsLaid s

give_back-Laid :
    (s : Layout) (o : Option (Block × List Block))
    → IsLaid s
    → Holds (IsBelow s.top) o
    → Parted o
    → Holds (λ u. All (Separate u) s.free) o
    → LaidIf (give_back s o)
give_back-Laid s none l below parted cross = tt
give_back-Laid s (some (b, used)) l below parted cross = record {
  nonzero = l.nonzero;
  free_below = (below.0, l.free_below);
  used_below = below.1;
  free_separate = (cross.0, l.free_separate);
  used_separate = parted.1;
  separate =
      All-and (λ u. Separate u b) (λ u. All (Separate u) s.free) used
        (All-mono used (Separate-sym b) parted.0) cross.1;
}

-- A block that is given back stays apart from the others.
pub release-Laid : (a : ℕ) (s : Layout) → IsLaid s → LaidIf (release a s)
unfolding release
release-Laid a s l =
    give_back-Laid s (extract a s.used) l (extract-Holds (IsBelow s.top) a s.used l.used_below)
      (extract-Parted a s.used l.used_separate)
      (extract-Holds (λ u. All (Separate u) s.free) a s.used l.separate)
