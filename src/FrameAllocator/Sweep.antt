-- ===== src/FrameAllocator/Sweep.antt =====
-- The order in which `switch_area` takes the areas: none is passed over while it has a frame to give.
use os_c.Prelude.{ℕ, ◌+◌, ◌≤◌, ◌<◌, ◌≡◌, ◌≢◌, ◌⊎◌, inl, inr, true, arith, ap}
use native.Mathlib.Decide.{dec_lt}
use os_c.Multiboot.{MemoryMapEntry, MemoryMap}
use os_c.FrameAllocator.{
  Allocator, current_entry, last_addr, Choice, select_area, uint64_max, switch_area, skip_frame,
  Allocated, failure, allocate_frame,
}
use os_c.FrameAllocator.Select.{IsEligible, select_from, select_least}
use os_c.FrameAllocator.Step.{Progress}
use os_c.FrameAllocator.Allocate.{
  Rounds, start, onward, Rounds-Trail, Outcome, exhausted, allocated, allocate_frame_lem,
}
use os_c.FrameAllocator.Inv.{IsValid, last_frame, last_addr_lem, last_frame-lt, is_reserved}

-- Documented of a memory map: its areas do not overlap.
abbrev pub Apart : (ℕ → MemoryMapEntry) → ℕ → Type 0
Apart maps n =
    (i j : ℕ)
    → i < n
    → j < n
    → (i ≡ j)
      ⊎ ((maps i).base_addr + (maps i).length ≤ (maps j).base_addr)
      ⊎ ((maps j).base_addr + (maps j).length ≤ (maps i).base_addr)

-- The eligible areas below the current one, or all if none is left, end below the cursor.
pub record IsSwept (a : Allocator) : Type 0 where
  pub swept :
      (j : ℕ)
      → j < a.num_entries
      → IsEligible 0 (a.mem_map.memory_maps j)
      → (a.entry_index ≡ a.num_entries)
        ⊎ ((a.mem_map.memory_maps j).base_addr < (current_entry a).base_addr)
      → last_frame (a.mem_map.memory_maps j) < a.next_free_frame

module _ {a : Allocator} (v : IsValid a) (apart : Apart a.mem_map.memory_maps a.num_entries)
    (here : a.entry_index ≢ a.num_entries) (past : last_frame (current_entry a) < a.next_free_frame)
    (s : IsSwept a) where
  -- What lies below the end of the current area has been swept.
  swept_below :
      (j : ℕ)
      → j < a.num_entries
      → IsEligible 0 (a.mem_map.memory_maps j)
      → (a.mem_map.memory_maps j).base_addr < last_addr (current_entry a)
      → last_frame (a.mem_map.memory_maps j) < a.next_free_frame
  swept_below j lt e below =
      elim (dec_lt (a.mem_map.memory_maps j).base_addr (current_entry a).base_addr) [
        | yes p ↦ s.swept j lt e (inr p)
        | no p ↦ elim (apart j a.entry_index lt (omega (arith, v.index_le))) [
          | inl same ↦ rw same past
          | inr (inl q) ↦ absurd (omega (arith, e.room))
          | inr (inr q) ↦ absurd (
              omega (
                arith,
                last_addr_lem (current_entry a) (v.fits a.entry_index (omega (arith, v.index_le)))
                    (omega (arith, (v.current here).room)),
              ))
        ]
      ]

  -- `switch_area` passes no eligible area over.
  not_passed :
      (j : ℕ)
      → j < a.num_entries
      → IsEligible (last_addr (current_entry a)) (a.mem_map.memory_maps j)
      → ((switch_area a).entry_index ≡ a.num_entries)
        ⊎ ((a.mem_map.memory_maps j).base_addr < (current_entry (switch_area a)).base_addr)
      → ⊥
  unfolding switch_area
  not_passed j lt e q =
      elim (select_from a.mem_map.memory_maps (last_addr (current_entry a)) a.num_entries 0
        a.num_entries none_yet (omega arith)) [
          | inl same ↦ omega (arith, least, ap (λ (c : Choice). c.addr) same, v.fits j lt, e.room)
          | inr (c, below) ↦ elim q [
            | inl end ↦ omega (arith, c.below)
            | inr lower ↦ omega (arith, c.addr_eq, least)
          ]
        ]
    where
      none_yet : Choice
      none_yet = record { addr = uint64_max; index = a.num_entries }

      least :
          (select_area a.mem_map.memory_maps
            (last_addr (current_entry a))
            a.num_entries
            0
            none_yet).addr
          ≤ (a.mem_map.memory_maps j).base_addr
      least =
          select_least a.mem_map.memory_maps (last_addr (current_entry a)) a.num_entries 0 j
            none_yet (omega arith) (omega arith) e

  switch-IsSwept : IsSwept (switch_area a)
  unfolding switch_area
  switch-IsSwept = record {
    swept = λ j lt e q.
        elim (dec_lt (a.mem_map.memory_maps j).base_addr (last_addr (current_entry a))) [
          | yes p ↦ swept_below j lt e p
          | no p ↦ absurd (not_passed j lt (record { above = omega arith; room = e.room }) q)
        ];
  }

skip-IsSwept :
    {a : Allocator}
    → a.next_free_frame ≤ last_frame (current_entry a)
    → IsSwept a
    → IsSwept (skip_frame a)
skip-IsSwept {a} h s = record {
  swept = λ j lt e q. omega (arith, s.swept j lt e q, last_frame-lt (current_entry a));
}

Progress-IsSwept :
    {a b : Allocator}
    → IsValid a
    → Apart a.mem_map.memory_maps a.num_entries
    → IsSwept a
    → Progress a b
    → IsSwept b
Progress-IsSwept v apart s p = elim p.move [
  | inl (e, here, past) ↦ rw e (switch-IsSwept v apart here past s)
  | inr (e, h) ↦ rw e (skip-IsSwept h s)
]

Rounds-IsSwept :
    {a b : Allocator}
    → IsValid a
    → Apart a.mem_map.memory_maps a.num_entries
    → IsSwept a
    → Rounds a b
    → IsValid b × IsSwept b × Apart b.mem_map.memory_maps b.num_entries
Rounds-IsSwept v apart s start = (v, s, apart)
Rounds-IsSwept v apart s (onward r p) =
    let (v', s', apart') = Rounds-IsSwept v apart s r in
    (p.valid, Progress-IsSwept v' apart' s' p, rw p.same apart')

module _ {a : Allocator} (v : IsValid a) (apart : Apart a.mem_map.memory_maps a.num_entries)
    (s : IsSwept a) where
  Outcome-IsSwept : {r : Allocated} → Outcome a r → IsSwept r.allocator
  Outcome-IsSwept (exhausted v' r e) = (Rounds-IsSwept v apart s r).1
  Outcome-IsSwept (allocated v' r f) =
      rw f.skipped
        (skip-IsSwept (ground (arith, f.covered, f.cursor)) (Rounds-IsSwept v apart s r).1)

  Outcome-exhausted :
      {r : Allocated} (n j : ℕ)
      → Outcome a r
      → r.status ≡ failure
      → a.next_free_frame ≤ n
      → j < a.num_entries
      → IsEligible 0 (a.mem_map.memory_maps j)
      → n ≤ last_frame (a.mem_map.memory_maps j)
      → is_reserved a n ≡ true
  Outcome-exhausted n j (exhausted {b} v' r end) refused from lt e to =
      let t = Rounds-Trail r in
      let num : b.num_entries ≡ a.num_entries = rw t.same in
      let map : b.mem_map ≡ a.mem_map = rw t.same in
      t.passed n from (
        omega (
          arith,
          (Rounds-IsSwept v apart s r).1.swept j (rw num lt) (rw map e) (inl (rw num end)),
          ap (λ (m : MemoryMap). last_frame (m.memory_maps j)) map,
        ))
  Outcome-exhausted n j (allocated v' r f) refused from lt e to = cc

  -- With areas that do not overlap, `allocate_frame` keeps, on an allocator in its invariant, that
  -- every area of a page or more below the current one ends below the cursor.
  pub allocate_frame-IsSwept : IsSwept (allocate_frame a).allocator
  allocate_frame-IsSwept = Outcome-IsSwept (allocate_frame_lem v)

  -- With areas that do not overlap, and an allocator in its invariant that has swept the areas
  -- below the current one, `allocate_frame` fails only when memory is used up: every frame from the
  -- cursor on, up to the end of any area of a page or more, is reserved.
  pub allocate_frame-exhausted :
      (n j : ℕ)
      → (allocate_frame a).status ≡ failure
      → a.next_free_frame ≤ n
      → j < a.num_entries
      → IsEligible 0 (a.mem_map.memory_maps j)
      → n ≤ last_frame (a.mem_map.memory_maps j)
      → is_reserved a n ≡ true
  allocate_frame-exhausted n j = Outcome-exhausted n j (allocate_frame_lem v)
