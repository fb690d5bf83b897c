-- ===== src/FrameAllocator/Faults.antt =====
-- What `allocate_frame` hands out that no area of the memory map offers.
use os_c.Prelude.{ℕ, zero, suc, ◌+◌, ◌*◌, ◌≤◌, ◌<◌, ◌≡◌, ◌≢◌, refl, false, ap, arith, page_size}
use os_c.Multiboot.{MemoryMap}
use os_c.FrameAllocator.{
  Allocator, current_entry, last_addr, Choice, uint64_max, choose, select_area, switch_area,
  skip_frame, get_frame_for_addr, Round, failed, found, again, round, Allocated, success,
  allocate_loop, allocate_frame, enough_rounds,
}
use os_c.FrameAllocator.Inv.{IsValid, is_reserved, last_frame}

-- An unreserved frame at the cursor is handed out at once.
found_at_cursor :
    (a : Allocator)
    → a.entry_index ≢ a.num_entries
    → a.next_free_frame ≤ last_frame (current_entry a)
    → is_reserved a a.next_free_frame ≡ false
    → round a ≡ found a.next_free_frame (skip_frame a)
unfolding round
found_at_cursor a here le free = ground arith

allocate_loop-found :
    (fuel n : ℕ) (a b : Allocator)
    → 0 < fuel
    → round a ≡ found n b
    → allocate_loop fuel a ≡ record { status = success; number = n; allocator = b }
unfolding allocate_loop
allocate_loop-found zero n a b h e = elim h [ ]
allocate_loop-found (suc fuel) n a b h e = rw (e, allocate_loop)

-- If the cursor is a frame that ends at or before the start of the current area, and is not
-- reserved, `allocate_frame` succeeds, from an allocator in its invariant with an area left, with a
-- frame that ends at or before the area's start.
pub allocate_frame-below_area :
    {a : Allocator}
    → IsValid a
    → a.entry_index ≢ a.num_entries
    → (a.next_free_frame + 1) * page_size ≤ (current_entry a).base_addr
    → is_reserved a a.next_free_frame ≡ false
    → ((allocate_frame a).status ≡ success)
      × (((allocate_frame a).number + 1) * page_size ≤ (current_entry a).base_addr)
unfolding allocate_frame get_frame_for_addr
allocate_frame-below_area {a} v here below free =
    let e = v.current here in
    let f = v.fits a.entry_index (omega (arith, v.index_le)) in
    let le : a.next_free_frame ≤ last_frame (current_entry a) = omega (arith, e.room) in
    rw
      (allocate_loop-found (enough_rounds a) a.next_free_frame a (skip_frame a) (omega arith)
        (found_at_cursor a here le free))
      (refl, below)

-- the same memory map, with other types of memory
abbrev pub retype_map : (ℕ → ℕ) → MemoryMap → MemoryMap
retype_map types m = record m {
  memory_maps = λ i. record (m.memory_maps i) { type_word = types i };
}

abbrev pub retype : (ℕ → ℕ) → Allocator → Allocator
retype types a = record a { mem_map = retype_map types a.mem_map }

select_area-retype :
    (types : ℕ → ℕ) (m : MemoryMap) (min_addr n i : ℕ) (best : Choice)
    → select_area (retype_map types m).memory_maps min_addr n i best
      ≡ select_area m.memory_maps min_addr n i best
unfolding select_area choose
select_area-retype types m min_addr zero i best = refl
select_area-retype types m min_addr (suc n) i best =
    select_area-retype types m min_addr n (i + 1) (choose min_addr (m.memory_maps i) i best)

retype_round : (ℕ → ℕ) → Round → Round
retype_round types failed = failed
retype_round types (found n a) = found n (retype types a)
retype_round types (again a) = again (retype types a)

switch_area-retype :
    (types : ℕ → ℕ) (a : Allocator) → switch_area (retype types a) ≡ retype types (switch_area a)
unfolding switch_area
switch_area-retype types a =
    ap (λ (c : Choice). record (retype types a) { entry_index = c.index })
      (select_area-retype types a.mem_map (last_addr (current_entry a)) a.num_entries 0
        (record { addr = uint64_max; index = a.num_entries }))

round-retype :
    (types : ℕ → ℕ) (a : Allocator) → round (retype types a) ≡ retype_round types (round a)
unfolding round retype_round
round-retype types a = ground (arith, switch_area-retype types a)

retype_allocated : (ℕ → ℕ) → Allocated → Allocated
retype_allocated types r = record r { allocator = retype types r.allocator }

allocate_loop-retype :
    (types : ℕ → ℕ) (fuel : ℕ) (a : Allocator)
    → allocate_loop fuel (retype types a) ≡ retype_allocated types (allocate_loop fuel a)
unfolding allocate_loop retype_allocated retype_round
allocate_loop-retype types zero a = refl
allocate_loop-retype types (suc fuel) a = go (round a) refl (allocate_loop-retype types fuel)
  where
    go :
        (r : Round)
        → round a ≡ r
        → ((b : Allocator)
            → allocate_loop fuel (retype types b) ≡ retype_allocated types (allocate_loop fuel b))
        → allocate_loop (suc fuel) (retype types a)
          ≡ retype_allocated types (allocate_loop (suc fuel) a)
    go failed e ih = rw (round-retype types a, e, allocate_loop)
    go (found n b) e ih = rw (round-retype types a, e, allocate_loop)
    go (again b) e ih = rw (round-retype types a, e, allocate_loop) (ih b)

-- Whatever types the entries of the memory map are given, `allocate_frame` has the same status,
-- hands out the same frame, and leaves the same allocator but for the types.
pub allocate_frame-retype :
    (types : ℕ → ℕ) (a : Allocator)
    → ((allocate_frame (retype types a)).status ≡ (allocate_frame a).status)
      × ((allocate_frame (retype types a)).number ≡ (allocate_frame a).number)
      × ((allocate_frame (retype types a)).allocator ≡ retype types (allocate_frame a).allocator)
unfolding allocate_frame retype_allocated
allocate_frame-retype types a =
    let e = allocate_loop-retype types (enough_rounds a) a in
    (
      ap (λ (r : Allocated). r.status) e,
      ap (λ (r : Allocated). r.number) e,
      ap (λ (r : Allocated). r.allocator) e,
    )
