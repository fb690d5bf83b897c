-- ===== src/FrameAllocator/Step.antt =====
-- One round of `allocate_frame`: it keeps the invariant, passes reserved frames only, and gets nearer
-- to its end.
use os_c.Prelude.{
  ℕ, ◌+◌, ◌≤◌, ◌<◌, ◌≡◌, ◌≢◌, ◌⊎◌, inl, inr, ap, refl, true, false, ltb, ◌==◌, arith, Bool-cases,
}
use os_c.FrameAllocator.{
  Allocator, current_entry, last_addr, within, skip_frame, switch_area, Choice, uint64_max, Round,
  failed, found, again, round,
}
use os_c.FrameAllocator.Area.{count_above_falls}
use os_c.FrameAllocator.Select.{IsEligible, select_from}
use os_c.FrameAllocator.Inv.{IsValid, moved, is_reserved, last_frame, last_frame-lt, rounds_left}

-- the area that `switch_area` goes to
pub next_area : Allocator → ℕ
next_area a = (switch_area a).entry_index

-- It is a page long and starts at the last address of the current one or above; or there is none.
pub next_area_lem :
    (a : Allocator)
    → let maps = a.mem_map.memory_maps in
      (next_area a ≡ a.num_entries)
      ⊎ ((next_area a < a.num_entries)
          × IsEligible (last_addr (current_entry a)) (maps (next_area a)))
unfolding next_area switch_area
next_area_lem a =
    elim (select_from a.mem_map.memory_maps (last_addr (current_entry a)) a.num_entries 0
      a.num_entries (record { addr = uint64_max; index = a.num_entries }) (omega arith)) [
        | inl same ↦ inl (ap (λ (c : Choice). c.index) same)
        | inr (c, lt) ↦ inr (c.below, c.eligible)
      ]

module _ {a : Allocator} (v : IsValid a) (here : a.entry_index ≢ a.num_entries) where
  switch-IsValid : IsValid (switch_area a)
  unfolding next_area switch_area
  switch-IsValid = ground (arith, next_area_lem a, v.fits, v.next_le)

  switch-rounds_left : rounds_left (switch_area a) < rounds_left a
  unfolding rounds_left next_area switch_area
  switch-rounds_left = ground (
    arith,
    next_area_lem a,
    v.current here,
    v.fits a.entry_index,
    count_above_falls a.mem_map.memory_maps (current_entry a).base_addr
        (a.mem_map.memory_maps (next_area a)).base_addr (next_area a) a.num_entries,
  )

  skip_frame-IsValid : a.next_free_frame ≤ last_frame (current_entry a) → IsValid (skip_frame a)
  skip_frame-IsValid h = record {
    fits = v.fits;
    current = v.current;
    index_le = v.index_le;
    next_le = ground (arith, last_frame-lt (current_entry a));
  }

  -- no wrap of `++allocator.next_free_frame.number`
  skip_frame_lem :
      a.next_free_frame ≤ last_frame (current_entry a)
      → skip_frame a ≡ moved a (a.next_free_frame + 1) a.entry_index
  skip_frame_lem h = ground (arith, last_frame-lt (current_entry a))

-- A round that goes on leaves an area behind the cursor, or passes a frame of the area.
abbrev pub Move : Allocator → Allocator → Type 0
Move a b =
    ((b ≡ switch_area a)
      × (a.entry_index ≢ a.num_entries)
      × (last_frame (current_entry a) < a.next_free_frame))
    ⊎ ((b ≡ skip_frame a) × (a.next_free_frame ≤ last_frame (current_entry a)))

-- What holds of a round that goes on: it moved the cursor past reserved frames only, or the area.
pub record Progress (a b : Allocator) : Type 0 where
  pub valid : IsValid b
  pub move : Move a b
  pub falls : rounds_left b < rounds_left a
  pub same : b ≡ moved a b.next_free_frame b.entry_index
  pub le : a.next_free_frame ≤ b.next_free_frame
  pub passed : (n : ℕ) → a.next_free_frame ≤ n → n < b.next_free_frame → is_reserved a n ≡ true

-- What holds of a frame that a round hands out.
pub record Free (a : Allocator) (n : ℕ) (b : Allocator) : Type 0 where
  pub cursor : n ≡ a.next_free_frame
  pub skipped : b ≡ skip_frame a
  pub after : b ≡ moved a (n + 1) a.entry_index
  pub unreserved : is_reserved a n ≡ false
  pub inside : a.entry_index < a.num_entries
  pub covered : n ≤ last_frame (current_entry a)

pub data RoundOf (a : Allocator) : Round → Type 0 where
  fails : a.entry_index ≡ a.num_entries → RoundOf a failed
  finds : {n : ℕ} {b : Allocator} → Free a n b → RoundOf a (found n b)
  goes_on : {b : Allocator} → Progress a b → RoundOf a (again b)

module _ {a : Allocator} (v : IsValid a) (here : a.entry_index ≢ a.num_entries) where
  switch-Progress : last_frame (current_entry a) < a.next_free_frame → Progress a (switch_area a)
  unfolding switch_area
  switch-Progress past = record {
    valid = switch-IsValid v here;
    move = inl (refl, here, past);
    falls = switch-rounds_left v here;
    same = refl;
    le = omega arith;
    passed = λ n p q. absurd (omega arith);
  }

  skip-Progress :
      a.next_free_frame ≤ last_frame (current_entry a)
      → is_reserved a a.next_free_frame ≡ true
      → Progress a (skip_frame a)
  unfolding rounds_left
  skip-Progress h r = record {
    valid = skip_frame-IsValid v here h;
    move = inr (refl, h);
    falls = ground (arith, last_frame-lt (current_entry a));
    same = refl;
    le = ground (arith, last_frame-lt (current_entry a));
    passed = λ n p q.
        let e : n ≡ a.next_free_frame = omega (arith, last_frame-lt (current_entry a)) in rw e r;
  }

pub round_lem : {a : Allocator} → IsValid a → RoundOf a (round a)
unfolding round
round_lem {a} v = elim (Bool-cases (a.entry_index == a.num_entries)) [
  | inl end ↦ rw end (fails (ground arith))
  | inr more ↦
      let here : a.entry_index ≢ a.num_entries = ground arith in
      elim (Bool-cases (ltb (last_frame (current_entry a)) a.next_free_frame)) [
        | inl past ↦ rw (more, past) (goes_on (switch-Progress v here (ground arith)))
        | inr inside ↦
            let le : a.next_free_frame ≤ last_frame (current_entry a) = ground arith in
            elim (Bool-cases (within a.kernel_start a.kernel_end a.next_free_frame)) [
              | inl k ↦ rw (more, inside, k) (goes_on (skip-Progress v here le (ground arith)))
              | inr k ↦
                  elim (Bool-cases (within a.multiboot_start a.multiboot_end a.next_free_frame)) [
                    | inl m ↦
                        rw (more, inside, k, m) (goes_on (skip-Progress v here le (ground arith)))
                    | inr m ↦
                        rw (more, inside, k, m)
                          (finds (record {
                            cursor = refl;
                            skipped = refl;
                            after = skip_frame_lem v here le;
                            unreserved = ground arith;
                            inside = omega (arith, v.index_le);
                            covered = le;
                          }))
                  ]
            ]
      ]
]

pub Free-IsValid : {a b : Allocator} {n : ℕ} → IsValid a → Free a n b → IsValid b
Free-IsValid {a} v f = rw f.after (record {
  fits = v.fits;
  current = v.current;
  index_le = v.index_le;
  next_le = ground (arith, f.covered, last_frame-lt (current_entry a));
})
