-- ===== src/FrameAllocator/Sequence.antt =====
-- Calls of `allocate_frame` one after another.
use os_c.Prelude.{ℕ, zero, suc, ◌+◌, ◌≤◌, ◌≡◌, false, List, [], ◌∷◌, All, ap, arith, inl, inr}
use mathlib.Core.Path.{subst}
use os_c.FrameAllocator.{Allocator, success, failure, out_of_fuel, allocate_frame}
use os_c.FrameAllocator.Inv.{IsValid, is_reserved}
use os_c.FrameAllocator.Allocate.{allocate_frame-cases}

-- the frames that a client gets from `count` calls; it stops at a failure
pub allocations : ℕ → Allocator → List ℕ
allocations zero a = []
allocations (suc count) a =
    let r = allocate_frame a in
    let rest = allocations count r.allocator in
    elim r.status [ success ↦ r.number ∷ rest | failure ↦ [] | out_of_fuel ↦ [] ]

-- Each number is at least `from` and above those before it.
abbrev pub Ascends : ℕ → List ℕ → Type 0
Ascends from [] = Unit
Ascends from (n ∷ ns) = (from ≤ n) × Ascends (n + 1) ns

abbrev pub Unreserved : Allocator → ℕ → Type 0
Unreserved a n = is_reserved a n ≡ false

module _ (count : ℕ) (a : Allocator) where
  allocations-success :
      (allocate_frame a).status ≡ success
      → allocations (suc count) a
        ≡ (allocate_frame a).number ∷ allocations count (allocate_frame a).allocator
  unfolding allocations
  allocations-success e = ground arith

  allocations-failure : (allocate_frame a).status ≡ failure → allocations (suc count) a ≡ []
  unfolding allocations
  allocations-failure e = ground arith

-- From an allocator in its invariant, the frames that any number of allocations hand out ascend
-- strictly from the cursor on, so that none is handed out twice, and none of them is reserved.
pub allocations-Ascends :
    (count : ℕ) {a : Allocator}
    → IsValid a
    → Ascends a.next_free_frame (allocations count a) × All (Unreserved a) (allocations count a)
allocations-Ascends zero v = unfold allocations in (tt, tt)
allocations-Ascends (suc count) {a} v =
    let (v', ends) = allocate_frame-cases v in
    let ih = allocations-Ascends count v' in
    elim ends [
      | inl h ↦
          let rest = allocations count (allocate_frame a).allocator in
          rw (allocations-success count a h.status) (
            (
              h.from,
              subst (λ k. Ascends k rest) (ap (λ (b : Allocator). b.next_free_frame) h.after) ih.0,
            ),
            (h.unreserved, subst (λ b. All (Unreserved b) rest) h.after ih.1),
          )
      | inr r ↦ rw (allocations-failure count a r.status) (tt, tt)
    ]
