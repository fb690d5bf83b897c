-- ===== src/FrameAllocator/Allocate.antt =====
-- `allocate_frame` as a whole: it ends, and hands out the least unreserved frame from the cursor on.
use os_c.Prelude.{ℕ, zero, suc, ◌+◌, ◌≤◌, ◌<◌, ◌≡◌, ◌⊎◌, inl, inr, refl, true, false, arith}
use native.Mathlib.Decide.{dec_lt}
use os_c.FrameAllocator.{
  Allocator, current_entry, Round, failed, found, again, round, success, failure, Allocated,
  allocate_loop, enough_rounds, allocate_frame,
}
use os_c.FrameAllocator.Inv.{
  IsValid, moved, is_reserved, last_frame, rounds_left, rounds_left-le, rounds_left_pos,
}
use os_c.FrameAllocator.Step.{
  Progress, Free, RoundOf, fails, finds, goes_on, round_lem, Free-IsValid,
}

-- `b` is `a` after rounds that went on.
pub record Trail (a b : Allocator) : Type 0 where
  pub same : b ≡ moved a b.next_free_frame b.entry_index
  pub le : a.next_free_frame ≤ b.next_free_frame
  pub passed : (n : ℕ) → a.next_free_frame ≤ n → n < b.next_free_frame → is_reserved a n ≡ true

Trail-refl : (a : Allocator) → Trail a a
Trail-refl a = record { same = refl; le = omega arith; passed = λ n p q. absurd (omega arith) }

module _ {a b : Allocator} (t : Trail a b) where
  is_reserved-Trail : (n : ℕ) → is_reserved b n ≡ is_reserved a n
  is_reserved-Trail n = rw t.same

  Trail-Progress : {c : Allocator} → Progress b c → Trail a c
  Trail-Progress {c} p = record {
    same = ground (arith, t.same, p.same);
    le = omega (arith, t.le, p.le);
    passed = λ n from to. elim (dec_lt n b.next_free_frame) [
      | yes lt ↦ t.passed n from lt
      | no ge ↦ ground (arith, p.passed n, is_reserved-Trail n)
    ];
  }

-- the rounds that go on, one after another
pub data Rounds (a : Allocator) : Allocator → Type 0 where
  start : Rounds a a
  onward : {b c : Allocator} → Rounds a b → Progress b c → Rounds a c

pub Rounds-Trail : {a b : Allocator} → Rounds a b → Trail a b
Rounds-Trail {a} start = Trail-refl a
Rounds-Trail (onward r p) = Trail-Progress (Rounds-Trail r) p

-- How `allocate_frame` may end.
pub data Outcome (a : Allocator) : Allocated → Type 0 where
  exhausted :
      {b : Allocator}
      → IsValid b
      → Rounds a b
      → b.entry_index ≡ a.num_entries
      → Outcome a (record { status = failure; number = 0; allocator = b })
  allocated :
      {b c : Allocator} {n : ℕ}
      → IsValid b
      → Rounds a b
      → Free b n c
      → Outcome a (record { status = success; number = n; allocator = c })

allocate_loop_lem :
    (fuel : ℕ) {a b : Allocator}
    → IsValid b
    → Rounds a b
    → rounds_left b ≤ fuel
    → Outcome a (allocate_loop fuel b)
unfolding allocate_loop
allocate_loop_lem zero {b} v t h = absurd (omega (arith, rounds_left_pos b))
allocate_loop_lem (suc fuel) {a} {b} v t h =
    go (round b) (round_lem v) λ c v' t' h'. allocate_loop_lem fuel v' t' h'
  where
    go :
        (r : Round)
        → RoundOf b r
        → ((c : Allocator)
            → IsValid c
            → Rounds a c
            → rounds_left c ≤ fuel
            → Outcome a (allocate_loop fuel c))
        → Outcome a (elim r [
          | failed ↦ record { status = failure; number = 0; allocator = b }
          | found n b' ↦ record { status = success; number = n; allocator = b' }
          | again b' ↦ allocate_loop fuel b'
        ])
    go r (fails e) ih = exhausted v t (ground (arith, (Rounds-Trail t).same))
    go r (finds f) ih = allocated v t f
    go r (goes_on p) ih = ih _ p.valid (onward t p) (omega (arith, p.falls))

pub allocate_frame_lem : {a : Allocator} → IsValid a → Outcome a (allocate_frame a)
unfolding allocate_frame
allocate_frame_lem {a} v = allocate_loop_lem (enough_rounds a) v start (rounds_left-le a)

-- Success: the least frame from the cursor on that is not reserved, within an area.
pub record Hands (a : Allocator) (r : Allocated) : Type 0 where
  pub status : r.status ≡ success
  pub from : a.next_free_frame ≤ r.number
  pub unreserved : is_reserved a r.number ≡ false
  pub least : (n : ℕ) → a.next_free_frame ≤ n → n < r.number → is_reserved a n ≡ true
  pub inside : r.allocator.entry_index < a.num_entries
  pub covered : r.number ≤ last_frame (current_entry r.allocator)
  pub after : r.allocator ≡ moved a (r.number + 1) r.allocator.entry_index

-- Failure: no area is left, and the cursor passed reserved frames only.
pub record Refuses (a : Allocator) (r : Allocated) : Type 0 where
  pub status : r.status ≡ failure
  pub number : r.number ≡ 0
  pub passed :
      (n : ℕ) → a.next_free_frame ≤ n → n < r.allocator.next_free_frame → is_reserved a n ≡ true
  pub after : r.allocator ≡ moved a r.allocator.next_free_frame a.num_entries

Outcome-IsValid : {a : Allocator} {r : Allocated} → Outcome a r → IsValid r.allocator
Outcome-IsValid (exhausted v t e) = v
Outcome-IsValid (allocated v t f) = Free-IsValid v f

Outcome-cases : {a : Allocator} {r : Allocated} → Outcome a r → Hands a r ⊎ Refuses a r
Outcome-cases (exhausted v r e) =
    let t = Rounds-Trail r in
    inr (record { status = refl; number = refl; passed = t.passed; after = ground (arith, t.same) })
Outcome-cases (allocated {n} v r f) =
    let t = Rounds-Trail r in
    inl (record {
      status = refl;
      from = omega (arith, f.cursor, t.le);
      unreserved = ground (arith, is_reserved-Trail t n, f.unreserved);
      least = λ k p q. t.passed k p (omega (arith, f.cursor));
      inside = ground (arith, f.inside, f.after, t.same);
      covered = ground (arith, f.covered, f.after, t.same);
      after = ground (arith, f.after, t.same, f.cursor);
    })

-- From an allocator in its invariant, `allocate_frame` ends, and leaves the allocator in the
-- invariant. Either it hands out the least frame from the cursor on that is neither the kernel's
-- nor the boot loader's, which is not above the end of the area that it is then in, and moves the
-- cursor behind it; or it fails with the frame 0, and then no area is left and every frame that the
-- cursor has passed is reserved.
pub allocate_frame-cases :
    {a : Allocator}
    → IsValid a
    → IsValid (allocate_frame a).allocator
      × (Hands a (allocate_frame a) ⊎ Refuses a (allocate_frame a))
allocate_frame-cases v = let o = allocate_frame_lem v in (Outcome-IsValid o, Outcome-cases o)
